-- ===== src/Frame/Effort.antt =====
-- testframe.cpp: how much the threads can do in a run with a repeat count and flow control.
use test_frame.Prelude.{
  ℕ, zero, suc, ◌+◌, ◌*◌, ◌^◌, ◌≤◌, ◌<◌, ◌≡◌, refl, ap, ◌∙◌, true, if◌then◌else◌, List, [], ◌∷◌,
  arith, pos, pos_part, neg_part, is_pos, is_neg, int_pred_parts, is_neg_parts, total, total_mono,
  total-compose, total-update, total-le, total-le-add,
}
use test_frame.Frame.{TestFrame}
use test_frame.Frame.Worker.{
  Shared, Pc, unborn, born, entering, preparing, gated, called, refused, head, metering, starved,
  resumed, taking, checking, counting, executing, settling, finished, Label, Move, count, quit,
  take_one, go_on,
}
use test_frame.Frame.System.{
  opening, System, Drive, create, start, refill, open_budget, drive, run, Reach, here, next, wake,
  threads,
}
use test_frame.Frame.Threads.{Reach-Settings, Reach-IsFresh, IsFresh, Drive-total}
use test_frame.Frame.Lock.{NoEarly, NoEarly-tail, started, holders, Reach-HasLock, Reach-barrier}
use test_frame.Frame.Quota.{Limits, quota, quitters, quitters-le}
use test_frame.Frame.Rate.{Budget, Reach-HasRate}
use test_frame.Frame.Pace.{budgets}
use test_frame.Frame.Work.{moves}

-- How many steps a thread has before it at most, to its next packet, to its next turn or to its end.
abbrev height : Pc → ℕ
height unborn = 11
height born = 10
height entering = 9
height preparing = 8
height (gated rc) = 7
height (called rc) = 6
height refused = 0
height head = 5
height metering = 4
height starved = 3
height resumed = 8
height taking = 3
height checking = 6
height counting = 3
height executing = 7
height (settling rc) = 6
height finished = 0

abbrev pub at_budget : Pc → ℕ
at_budget taking = 1
at_budget _ = 0

-- What is left to be used up: turns, and packets; `t` threads take from a budget, also from one that is
-- used up.
abbrev credit : Shared → ℕ → ℕ
credit m t =
    5 * pos_part m.repeat_count.ci_count
    + (if is_neg m.frequence.ci_count then 4 * t else 4 * (pos_part m.frequence.ci_count + 1))

Move-effort :
    (t t' : ℕ) {m m' : Shared} {p p' : Pc} {l : Label}
    → Move m p l m' p'
    → NoEarly (l ∷ [])
    → is_pos m.repeat_count_const ≡ true
    → pos_part m.repeat_count.ci_count < 2 ^ 31
    → neg_part m.repeat_count.ci_count < 2 ^ 31
    → pos_part m.frequence.ci_count < 2 ^ 31
    → neg_part m.frequence.ci_count < 2 ^ 31
    → t' + at_budget p ≡ t + at_budget p'
    → t ≤ 1
    → height p' + credit m' t' + 1 ≤ height p + credit m t
Move-effort t t' {m} (count a b) ne counted s1 s2 s3 s4 e le =
    ground (arith, int_pred_parts m.repeat_count.ci_count)
Move-effort t t' {m} (quit a b) ne counted s1 s2 s3 s4 e le =
    ground (arith, int_pred_parts m.repeat_count.ci_count)
Move-effort t t' {m} take_one ne counted s1 s2 s3 s4 e le =
    ground (arith, int_pred_parts m.frequence.ci_count, is_neg_parts m.frequence.ci_count)
Move-effort t t' (go_on a) ne counted s1 s2 s3 s4 e le = ground arith
Move-effort t t' (Move.uncounted a) ne counted s1 s2 s3 s4 e le = absurd (cc)
Move-effort t t' Move.start_early ne counted s1 s2 s3 s4 e le = absurd ne
Move-effort t t' Move.resume_early ne counted s1 s2 s3 s4 e le = absurd ne
Move-effort t t' mv ne counted s1 s2 s3 s4 e le = ground arith

height-wake-le : (p : Pc) → height (wake p) ≤ height p + 5 * started p
height-wake-le p = ground arith

started-le : (p : Pc) → started p ≤ 1
started-le p = ground arith

-- A broadcast wakes the threads that have started.
woken-height :
    (n : ℕ) (pc : ℕ → Pc)
    → total height n (λ j. wake (pc j)) ≤ total height n pc + 5 * total started n pc
woken-height n pc = omega (
  arith,
  total-compose height wake n pc,
  total-le-add (λ p. height (wake p)) height started 5 height-wake-le n pc,
)

-- What a new budget of `limit` packets gives `n` threads to do.
abbrev pub supply : ℕ → ℕ → ℕ
supply limit n = 4 * (limit + 1) + 5 * n

Drive-effort :
    (limit k : ℕ) {n : ℕ} {s t : System} {l : Label}
    → Drive n s l t
    → IsFresh n s
    → s.frequence_const ≡ pos limit
    → (s.control ≡ opening → total started n s.pc ≡ 0)
    → total height n t.pc + credit t.mem k
      ≤ total height n s.pc + credit s.mem k + budgets (l ∷ []) * supply limit n
Drive-effort x k {n} {s} (create t e lt) fresh metered shut =
    let e' : s.pc t ≡ unborn = fresh t (rw e (omega arith)) in
    omega (arith, rw e' at (total-update height n s.pc t born lt))
Drive-effort x k {n} {s} (start now e) fresh metered shut =
    omega (arith, woken-height n s.pc, shut e)
Drive-effort x k {n} {s} (open_budget e a) fresh metered shut = ground (arith, metered)
Drive-effort x k {n} {s} (refill b now e) fresh metered shut =
    let woken = woken-height n s.pc in
    let few = total-le started started-le n s.pc in ground (arith, metered, woken, few)
Drive-effort x k d fresh metered shut = omega arith

total-height-le : (n : ℕ) → total height n (λ _. unborn) ≤ 11 * n
unfolding total
total-height-le zero = omega arith
total-height-le (suc n) = omega (arith, total-height-le n)

at_budget-le_holders : (p : Pc) → at_budget p ≤ holders p
at_budget-le_holders p = ground arith

-- At most one thread takes from the budget.
one_at_budget :
    {f : TestFrame} {ls : List Label} {s : System}
    → Reach f ls s
    → total at_budget (threads f) s.pc ≤ 1
one_at_budget {f} {s = s} r =
    ground
      (arith, Reach-HasLock r, total_mono at_budget holders at_budget-le_holders (threads f) s.pc)

budgets-cons : (l : Label) (ls : List Label) → budgets (l ∷ ls) ≡ budgets (l ∷ []) + budgets ls
budgets-cons Label.quiet ls = omega arith
budgets-cons Label.refilled ls = omega arith
budgets-cons Label.granted ls = omega arith
budgets-cons Label.early ls = omega arith

move-NoEarly : (l : Label) (ls : List Label) → NoEarly (l ∷ ls) → NoEarly (l ∷ [])
move-NoEarly Label.quiet ls ne = tt
move-NoEarly Label.refilled ls ne = tt
move-NoEarly Label.granted ls ne = tt
move-NoEarly Label.early ls ne = ne

-- A step of a thread sets no budget.
Move-budgets :
    (ls : List Label) {m m' : Shared} {p p' : Pc} {l : Label}
    → Move m p l m' p'
    → budgets (l ∷ ls) ≡ budgets ls
Move-budgets ls Move.init = refl
Move-budgets ls mv = refl

module _ {f : TestFrame} (limit rate : ℕ) (c : Limits f limit) (b : Budget f rate) where
  moves-height :
      {ls : List Label} {s : System} (r : Reach f ls s)
      → NoEarly ls
      → moves r + (total height (threads f) s.pc + credit s.mem (total at_budget (threads f) s.pc))
        ≤ 11 * threads f + 5 * limit + 4 + budgets ls * supply rate (threads f)
  unfolding moves
  moves-height here ne = ground (arith, total-height-le (threads f), c.set_count, b.set_count)
  moves-height (next {ls} {l} {s} {t} r (drive d)) ne =
      let earlier = NoEarly-tail l ls ne in
      let k = total at_budget (threads f) s.pc in
      let more =
        Drive-effort rate k d (Reach-IsFresh r) ((Reach-Settings r).same_frequence ∙ b.set_const)
          (λ e. Reach-barrier r earlier (rw e refl)) in
      let same = Drive-total at_budget refl (λ p. ground arith) (Reach-IsFresh r) d in
      rw same (
        omega (
          arith,
          moves-height r earlier,
          more,
          ap (λ (x : ℕ). x * supply rate (threads f)) (budgets-cons l ls),
        ))
  moves-height (next {ls} {l} {s} r (run i {p = p} lt on mv)) ne =
      let earlier = NoEarly-tail l ls ne in
      let n = threads f in
      let q = quota limit c r in
      let w = Reach-HasRate rate b r earlier in
      let counted : is_pos s.repeat_count_const ≡ true = ground (arith, q.limited, c.some_turn) in
      let gone = total-le quitters quitters-le n s.pc in
      let less =
        Move-effort (total at_budget n s.pc) _ mv (move-NoEarly l ls ne) counted
          (omega (arith, q.pending, c.small)) (omega (arith, q.over, c.few, gone))
          (ground (arith, w.left, is_neg_parts s.frequence.ci_count, b.small))
          (omega (arith, w.bounded, b.few)) (total-update at_budget n s.pc i p lt)
          (one_at_budget r) in
      omega (
        arith,
        moves-height r earlier,
        less,
        total-update height n s.pc i p lt,
        ap (λ (x : ℕ). x * supply rate n) (Move-budgets ls mv),
      )

  -- The work of a run with flow control is bounded by its budgets: with a repeat count and a rate that are
  -- set and positive, and that like the number of threads are below 2 ^ 31, in a run in which no wait
  -- returns by itself, the threads make at most eleven steps each and five for each test case that was
  -- asked for, and four more, and for each budget that the main thread sets four for each packet and
  -- five for each thread, and four more, however they interleave.
  pub moves-metered-le :
      {ls : List Label} {s : System} (r : Reach f ls s)
      → NoEarly ls
      → moves r ≤ 11 * threads f + 5 * limit + 4 + budgets ls * (4 * (rate + 1) + 5 * threads f)
  moves-metered-le {ls} {s} r ne = omega (arith, moves-height r ne)
