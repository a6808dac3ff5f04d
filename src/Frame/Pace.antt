-- ===== src/Frame/Pace.antt =====
-- testframe.cpp: the flow control over the whole run: how many packets are let through, and how many
-- test cases are run, in the seconds since the start.
use test_frame.Prelude.{
  ℕ, ◌+◌, ◌-◌, ◌*◌, ◌≤◌, ◌<◌, ◌≡◌, refl, true, List, [], ◌∷◌, arith, is_pos, total, total-update,
  total-ge, total-eq-zero,
}
use native.Mathlib.Nat.{mul-le-mul_right}
use test_frame.Statistic.{increase_success_count, increase_failure_count, update_delay, reset_ps}
use test_frame.Frame.{TestFrame}
use test_frame.Frame.Worker.{
  Shared, Pc, unborn, counting, checking, executing, settling, Label, refilled, granted, Move,
}
use test_frame.Frame.System.{
  Control, calling, creating, sleeping, opening, polling, printing, resetting, deciding, refilling,
  returned, aborted, exited, System, Drive, no_case, has_case, create, create_fails, created,
  open_budget, open_free, start, poll, print, print_nothing, reset, exit, keep, acquire, refill,
  drive, run, Reach, here, next, threads,
}
use test_frame.Frame.Threads.{Reach-IsFresh, Drive-total, Reach-Settings}
use test_frame.Frame.Rate.{Budget, grants, grants-le}
use test_frame.Frame.Lock.{is_closed, started, NoEarly, NoEarly-tail, Reach-barrier}

-- The packets let through in the run, and the budgets that the main thread has set.
abbrev pub all_grants : List Label → ℕ
all_grants [] = 0
all_grants (granted ∷ ls) = all_grants ls + 1
all_grants (l ∷ ls) = all_grants ls

abbrev pub budgets : List Label → ℕ
budgets [] = 0
budgets (refilled ∷ ls) = budgets ls + 1
budgets (l ∷ ls) = budgets ls

-- At a reading `last` of the clock: the main thread has set `b` budgets of `limit` packets, one a second;
-- the last one has let through `given`, and all together `all`.
pub record IsTimed (limit given all b begin last : ℕ) : Type 0 where
  pub later : begin ≤ last
  pub paced : b + begin ≤ last + 1
  pub part : all + limit ≤ b * limit + given

abbrev pub IsPaced : ℕ → ℕ → ℕ → ℕ → Control → Type 0
IsPaced limit given all b calling = (all ≡ 0) × (b ≡ 0)
IsPaced limit given all b (creating t) = (all ≡ 0) × (b ≡ 0)
IsPaced limit given all b sleeping = (all ≡ 0) × (b ≡ 0)
IsPaced limit given all b opening = (all ≡ 0) × (b ≡ 1)
IsPaced limit given all b (polling begin last) = IsTimed limit given all b begin last
IsPaced limit given all b (printing begin now) =
    (0 < now) × IsTimed limit given all b begin (now - 1)
IsPaced limit given all b (resetting begin now) =
    (0 < now) × IsTimed limit given all b begin (now - 1)
IsPaced limit given all b (deciding begin now) =
    (0 < now) × IsTimed limit given all b begin (now - 1)
IsPaced limit given all b (refilling begin now) =
    (0 < now) × IsTimed limit given all b begin (now - 1)
IsPaced limit given all b c = Unit

abbrev HasPace : ℕ → List Label → Control → Type 0
HasPace limit ls c = IsPaced limit (grants ls) (all_grants ls) (budgets ls) c

Drive-HasPace :
    (limit : ℕ) (ls : List Label) {n : ℕ} {s t : System} {l : Label}
    → Drive n s l t
    → is_pos s.frequence_const ≡ true
    → grants ls ≤ limit
    → HasPace limit ls s.control
    → HasPace limit (l ∷ ls) t.control
Drive-HasPace x ls (no_case a e) metered le h = tt
Drive-HasPace x ls (has_case a e) metered le h = rw e at h
Drive-HasPace x ls (create t e lt) metered le h = rw e at h
Drive-HasPace x ls (create_fails t e lt) metered le h = tt
Drive-HasPace x ls (created e) metered le h = rw e at h
Drive-HasPace x ls (open_budget e a) metered le h =
    let (none_given, no_budget) : HasPace x ls sleeping = rw e at h in omega arith
Drive-HasPace x ls (open_free e a) metered le h = absurd (cc)
Drive-HasPace x ls (start now e) metered le h =
    let (none_given, one_budget) : HasPace x ls opening = rw e at h in
    record { later = omega arith; paced = omega arith; part = rw one_budget (omega arith) }
Drive-HasPace x ls (poll b last now e lt) metered le h =
    let before : HasPace x ls (polling b last) = rw e at h in
    (
      omega arith,
      record {
        later = omega (arith, before.later);
        paced = omega (arith, before.later, before.paced);
        part = before.part;
      },
    )
Drive-HasPace x ls (print b now r e a p) metered le h = rw e at h
Drive-HasPace x ls (print_nothing b now e a) metered le h = rw e at h
Drive-HasPace x ls (reset b now e) metered le h = rw e at h
Drive-HasPace x ls (exit b now e a) metered le h = tt
Drive-HasPace x ls (keep b now e a p) metered le h = absurd (cc)
Drive-HasPace x ls (acquire b now e a p free) metered le h = rw e at h
Drive-HasPace x ls (refill b now e) metered le h =
    let (some_time, before) : HasPace x ls (refilling b now) = rw e at h in
    record {
      later = omega (arith, before.later);
      paced = omega (arith, before.paced);
      part = omega (arith, before.part);
    }

one_more :
    (limit given all b begin last : ℕ)
    → IsTimed limit given all b begin last
    → IsTimed limit (given + 1) (all + 1) b begin last
one_more x given all b begin last h = record {
  later = h.later;
  paced = h.paced;
  part = omega (arith, h.part);
}

grant-HasPace :
    (limit : ℕ) (ls : List Label) (c : Control)
    → (is_closed c ≡ true → started checking ≡ 0)
    → HasPace limit ls c
    → HasPace limit (granted ∷ ls) c
grant-HasPace x ls (polling b last) shut h =
    one_more x (grants ls) (all_grants ls) (budgets ls) b last h
grant-HasPace x ls (printing b now) shut h =
    (h.0, one_more x (grants ls) (all_grants ls) (budgets ls) b (now - 1) h.1)
grant-HasPace x ls (resetting b now) shut h =
    (h.0, one_more x (grants ls) (all_grants ls) (budgets ls) b (now - 1) h.1)
grant-HasPace x ls (deciding b now) shut h =
    (h.0, one_more x (grants ls) (all_grants ls) (budgets ls) b (now - 1) h.1)
grant-HasPace x ls (refilling b now) shut h =
    (h.0, one_more x (grants ls) (all_grants ls) (budgets ls) b (now - 1) h.1)
grant-HasPace x ls returned shut h = tt
grant-HasPace x ls aborted shut h = tt
grant-HasPace x ls exited shut h = tt
grant-HasPace x ls c shut h = absurd (omega (arith, shut refl))

-- A step of a thread shows a packet only from the double check.
Move-all :
    (limit : ℕ) (ls : List Label) {m m' : Shared} {p p' : Pc} {l : Label} (c : Control)
    → Move m p l m' p'
    → NoEarly (l ∷ ls)
    → (is_closed c ≡ true → started p ≡ 0)
    → HasPace limit ls c
    → HasPace limit (l ∷ ls) c
Move-all x ls c (Move.grant a) ne shut h = grant-HasPace x ls c shut h
Move-all x ls c Move.start_early ne shut h = absurd ne
Move-all x ls c Move.resume_early ne shut h = absurd ne
Move-all x ls c mv ne shut h = h

pub still_metered :
    (limit : ℕ) {f : TestFrame} {ls : List Label} {s : System}
    → Budget f limit
    → Reach f ls s
    → is_pos s.frequence_const ≡ true
still_metered x b r =
    rw ((Reach-Settings r).same_frequence, b.set_const) (ground (arith, b.some_packet))

Reach-HasPace :
    (limit : ℕ) {f : TestFrame} {ls : List Label} {s : System}
    → Budget f limit
    → Reach f ls s
    → NoEarly ls
    → HasPace limit ls s.control
Reach-HasPace x b here ne = (refl, refl)
Reach-HasPace x {f} b (next {ls} {l} {s} r (drive d)) ne =
    let earlier = NoEarly-tail l ls ne in
    Drive-HasPace x ls d (still_metered x b r) (grants-le x b r earlier).0
      (Reach-HasPace x b r earlier)
Reach-HasPace x {f} b (next {ls} {l} {s} r (run i lt on mv)) ne =
    let earlier = NoEarly-tail l ls ne in
    Move-all x ls s.control mv ne
      (λ shut. omega (arith, Reach-barrier r earlier shut, total-ge started (threads f) s.pc i lt))
      (Reach-HasPace x b r earlier)

-- Packets let through whose test case is not counted yet.
abbrev pub sending : Pc → ℕ
sending counting = 1
sending executing = 1
sending (settling rc) = 1
sending _ = 0

Move-sending :
    (all all' w w' : ℕ) {m m' : Shared} {p p' : Pc} {l : Label}
    → Move m p l m' p'
    → is_pos m.frequence_const ≡ true
    → all' ≡ all_grants (l ∷ []) + all
    → w' + sending p ≡ w + sending p'
    → m.statistic.total_count + w ≤ all
    → m'.statistic.total_count + w' ≤ all'
unfolding update_delay increase_success_count increase_failure_count
Move-sending all all' w w' (Move.unmetered a) metered e ew h = absurd (cc)
Move-sending all all' w w' mv metered e ew h = ground arith

Drive-total_count :
    {n : ℕ} {s t : System} {l : Label}
    → Drive n s l t
    → t.statistic.total_count ≡ s.statistic.total_count
unfolding reset_ps
Drive-total_count (create t e lt) = refl
Drive-total_count d = refl

Drive-all_grants :
    (ls : List Label) {n : ℕ} {s t : System} {l : Label}
    → Drive n s l t
    → all_grants (l ∷ ls) ≡ all_grants ls
Drive-all_grants ls (create t e lt) = refl
Drive-all_grants ls d = refl

Reach-sending :
    (limit : ℕ) {f : TestFrame} {ls : List Label} {s : System}
    → Budget f limit
    → Reach f ls s
    → s.statistic.total_count + total sending (threads f) s.pc ≤ all_grants ls
Reach-sending x {f} b here =
    omega (arith, total-eq-zero sending (threads f) (λ _. unborn) (λ _. refl))
Reach-sending x {f} b (next {ls} {l} {s} {t} r (drive d)) =
    let same = Drive-total sending refl (λ p. ground arith) (Reach-IsFresh r) d in
    let shown : all_grants (l ∷ ls) ≡ all_grants ls = Drive-all_grants ls d in
    omega (arith, same, shown, Drive-total_count d, Reach-sending x b r)
Reach-sending x {f} b (next {ls} {l} {s} r (run i {p = p'} lt on mv)) =
    Move-sending (all_grants ls) _ (total sending (threads f) s.pc) _ mv (still_metered x b r)
      (ground arith) (total-update sending (threads f) s.pc i p' lt) (Reach-sending x b r)

-- The packets of the run: where the flow control is set to a positive number and it and the number of
-- threads are below 2 ^ 31, in every interleaving in which no wait returns by itself, at the head of the
-- loop of the main thread that was entered when the clock read `begin` and has last acted when it
-- read `last`, at most that number of packets has been let through for each second since the start, the
-- one under way included; and no more test cases are counted, under way or about to start than that.
pub pace-kept :
    (limit : ℕ) {f : TestFrame} {ls : List Label} {s : System} (begin last : ℕ)
    → Budget f limit
    → Reach f ls s
    → NoEarly ls
    → s.control ≡ polling begin last
    → (begin ≤ last)
      × (all_grants ls ≤ (last - begin + 1) * limit)
      × (s.statistic.total_count + total sending (threads f) s.pc ≤ (last - begin + 1) * limit)
pace-kept x {f} {ls} {s} begin last b r ne e =
    let pace : HasPace x ls (polling begin last) = rw e at (Reach-HasPace x b r ne) in
    let seconds : budgets ls * x ≤ (last - begin + 1) * x =
      mul-le-mul_right x (omega (arith, pace.later, pace.paced)) in
    let few : all_grants ls ≤ (last - begin + 1) * x =
      omega (arith, seconds, pace.part, (grants-le x b r ne).0) in
    (pace.later, few, omega (arith, few, Reach-sending x b r))
