-- ===== src/Frame/Spent.antt =====
-- testframe.cpp: the flow control keeps no packet back. A thread sleeps only when the budget is spent.
use test_frame.Prelude.{
  ℕ, ◌+◌, ◌^◌, ◌≤◌, ◌<◌, ◌≡◌, ◌⊎◌, inl, inr, refl, ◌∙◌, true, false, Bool, Bool-cases, List, ◌∷◌,
  arith, pos, pos_part, neg_part, is_pos, is_neg, int_pred_parts, is_neg_parts, total, total-add-le,
  total-update, total-ge, ◌==◌,
}
use test_frame.Frame.{TestFrame}
use test_frame.Frame.Worker.{
  Shared, Pc, starved, Label, refilled, Move, take_one, grant, retry, starve,
}
use test_frame.Frame.System.{
  Control, calling, creating, sleeping, returned, aborted, System, Drive, no_case, has_case, create,
  create_fails, created, open_budget, open_free, start, poll, print, print_nothing, reset, exit,
  keep, acquire, refill, drive, run, Reach, here, next, threads, is_running,
}
use test_frame.Frame.Threads.{Reach-Settings, Reach-IsFresh, Drive-total}
use test_frame.Frame.Lock.{
  is_closed, NoEarly, NoEarly-tail, started, holders, Reach-HasLock, Reach-barrier,
}
use test_frame.Frame.Rate.{Budget, grants, checkers, none_checking, Reach-HasRate}
use test_frame.Frame.Pace.{still_metered}
use test_frame.Frame.Effort.{at_budget}

-- `given` packets of a budget of `limit` have been let through, and `c` threads are about to.
abbrev IsSpent : ℕ → ℕ → ℕ → Shared → Type 0
IsSpent limit given c m =
    ((is_neg m.frequence.ci_count ≡ true) × (given ≡ limit))
    ⊎ ((is_neg m.frequence.ci_count ≡ false) × (pos_part m.frequence.ci_count + given + c ≡ limit))

Move-IsSpent :
    (limit c c' : ℕ) (ls : List Label) {m m' : Shared} {p p' : Pc} {l : Label}
    → Move m p l m' p'
    → pos_part m.frequence.ci_count < 2 ^ 31
    → neg_part m.frequence.ci_count < 2 ^ 31
    → c' + checkers p ≡ c + checkers p'
    → c + at_budget p ≤ 1
    → IsSpent limit (grants ls) c m
    → IsSpent limit (grants (l ∷ ls)) c' m'
Move-IsSpent x c c' ls {m} take_one s1 s2 e le h =
    ground (arith, int_pred_parts m.frequence.ci_count, is_neg_parts m.frequence.ci_count)
Move-IsSpent x c c' ls (grant a) s1 s2 e le h = ground arith
Move-IsSpent x c c' ls (retry a) s1 s2 e le h = ground arith
Move-IsSpent x c c' ls mv s1 s2 e le h = ground arith

-- Whether the main thread has set a budget.
abbrev has_budget : Control → Bool
has_budget calling = false
has_budget (creating t) = false
has_budget sleeping = false
has_budget returned = false
has_budget aborted = false
has_budget _ = true

abbrev HasSpent : ℕ → ℕ → List Label → System → Type 0
HasSpent limit n ls s =
    has_budget s.control ≡ true → IsSpent limit (grants ls) (total checkers n s.pc) s.mem

Drive-IsSpent :
    (limit c : ℕ) (ls : List Label) {n : ℕ} {s t : System} {l : Label}
    → Drive n s l t
    → s.frequence_const ≡ pos limit
    → is_pos s.frequence_const ≡ true
    → (l ≡ refilled → c ≡ 0)
    → (has_budget s.control ≡ true → IsSpent limit (grants ls) c s.mem)
    → has_budget t.control ≡ true
    → IsSpent limit (grants (l ∷ ls)) c t.mem
Drive-IsSpent x c ls (no_case a e) metered some none_checks h on = absurd (cc)
Drive-IsSpent x c ls (has_case a e) metered some none_checks h on = absurd (cc)
Drive-IsSpent x c ls (create t e lt) metered some none_checks h on = absurd (cc)
Drive-IsSpent x c ls (create_fails t e lt) metered some none_checks h on = absurd (cc)
Drive-IsSpent x c ls (created e) metered some none_checks h on = absurd (cc)
Drive-IsSpent x c ls (open_budget e a) metered some none_checks h on =
    ground (arith, none_checks refl, metered)
Drive-IsSpent x c ls (open_free e a) metered some none_checks h on = absurd (cc)
Drive-IsSpent x c ls (refill b now e) metered some none_checks h on =
    ground (arith, none_checks refl, metered)
Drive-IsSpent x c ls (start now e) metered some none_checks h on = h (rw e refl)
Drive-IsSpent x c ls (poll b l now e a) metered some none_checks h on = h (rw e refl)
Drive-IsSpent x c ls (print b now r e a q) metered some none_checks h on = h (rw e refl)
Drive-IsSpent x c ls (print_nothing b now e a) metered some none_checks h on = h (rw e refl)
Drive-IsSpent x c ls (reset b now e) metered some none_checks h on = h (rw e refl)
Drive-IsSpent x c ls (exit b now e a) metered some none_checks h on = h (rw e refl)
Drive-IsSpent x c ls (keep b now e a q) metered some none_checks h on = h (rw e refl)
Drive-IsSpent x c ls (acquire b now e a q r) metered some none_checks h on = h (rw e refl)

at_most_one : (p : Pc) → checkers p + at_budget p ≤ holders p
at_most_one p = ground arith

Reach-HasSpent :
    (limit : ℕ) {f : TestFrame} {ls : List Label} {s : System}
    → Budget f limit
    → Reach f ls s
    → NoEarly ls
    → HasSpent limit (threads f) ls s
Reach-HasSpent x b here ne on = absurd (cc)
Reach-HasSpent x {f} b (next {ls} {l} {s} r (drive d)) ne on =
    let earlier = NoEarly-tail l ls ne in
    rw (Drive-total checkers refl (λ p. ground arith) (Reach-IsFresh r) d) (
      Drive-IsSpent x (total checkers (threads f) s.pc) ls d
        ((Reach-Settings r).same_frequence ∙ b.set_const) (still_metered x b r)
        (none_checking r earlier d) (Reach-HasSpent x b r earlier) on)
Reach-HasSpent x {f} b (next {ls} {l} {s} r (run i {p = p} lt running mv)) ne on =
    let earlier = NoEarly-tail l ls ne in
    let n = threads f in
    let w = Reach-HasRate x b r earlier in
    let one : total checkers n s.pc + at_budget (s.pc i) ≤ 1 = ground (
      arith,
      Reach-HasLock r,
      total-add-le checkers at_budget holders at_most_one n s.pc,
      total-ge at_budget n s.pc i lt,
    ) in
    Move-IsSpent x (total checkers n s.pc) _ ls mv
      (ground (arith, w.left, is_neg_parts s.frequence.ci_count, b.small))
      (omega (arith, w.bounded, b.few)) (total-update checkers n s.pc i p lt) one
      (Reach-HasSpent x b r earlier on)

-- A thread sleeps only where the counter of the budget is below 0.
abbrev IsAsleep : ℕ → System → Type 0
IsAsleep n s = (j : ℕ) → j < n → s.pc j ≡ starved → is_neg s.frequence.ci_count ≡ true

Move-neg :
    {m m' : Shared} {p p' : Pc} {l : Label}
    → Move m p l m' p'
    → neg_part m.frequence.ci_count < 2 ^ 31
    → is_neg m.frequence.ci_count ≡ true
    → is_neg m'.frequence.ci_count ≡ true
Move-neg {m} take_one small h =
    ground (arith, int_pred_parts m.frequence.ci_count, is_neg_parts m.frequence.ci_count)
Move-neg mv small h = h

Move-starved :
    {m m' : Shared} {p p' : Pc} {l : Label}
    → Move m p l m' p'
    → p' ≡ starved
    → is_neg m'.frequence.ci_count ≡ true
Move-starved (starve gone) asleep = gone
Move-starved mv asleep = absurd (cc)

Drive-IsAsleep :
    {n : ℕ} {s t : System} {l : Label}
    → Drive n s l t
    → (s.control ≡ sleeping → total started n s.pc ≡ 0)
    → IsAsleep n s
    → IsAsleep n t
Drive-IsAsleep (create k e lt) shut h j lt' asleep = h j lt' (ground arith)
Drive-IsAsleep {n} {s} (open_budget e a) shut h j lt' asleep =
    absurd (ground (arith, shut e, total-ge started n s.pc j lt', asleep))
Drive-IsAsleep (start now e) shut h j lt' asleep = absurd (ground (arith, asleep))
Drive-IsAsleep (refill b now e) shut h j lt' asleep = absurd (ground (arith, asleep))
Drive-IsAsleep d shut h j lt' asleep = h j lt' asleep

Reach-IsAsleep :
    (limit : ℕ) {f : TestFrame} {ls : List Label} {s : System}
    → Budget f limit
    → Reach f ls s
    → NoEarly ls
    → IsAsleep (threads f) s
Reach-IsAsleep x b here ne j lt asleep = absurd (cc)
Reach-IsAsleep x b (next {ls} {l} r (drive d)) ne j lt asleep =
    let earlier = NoEarly-tail l ls ne in
    Drive-IsAsleep d (λ e. Reach-barrier r earlier (rw e refl)) (Reach-IsAsleep x b r earlier) j lt
      asleep
Reach-IsAsleep x {f} b (next {ls} {l} {s} r (run i {p = p} lt running mv)) ne j lt' asleep =
    let earlier = NoEarly-tail l ls ne in
    let w = Reach-HasRate x b r earlier in
    elim (Bool-cases (i == j)) [
      | inl same ↦ Move-starved mv (rw same at asleep)
      | inr other ↦
          Move-neg mv (omega (arith, w.bounded, b.few))
            (Reach-IsAsleep x b r earlier j lt' (rw other at asleep))
    ]

budget_set : (c : Control) → is_closed c ≡ false → is_running c ≡ true → has_budget c ≡ true
budget_set c shut on = ground arith

-- The flow control keeps no packet back: where the rate is set to a positive number and it and the number
-- of threads are below 2 ^ 31, in every interleaving in which no wait returns by itself, while a thread
-- sleeps until the next budget, exactly the set number of packets has been let through from the last one.
pub starved-spent :
    (limit : ℕ) {f : TestFrame} {ls : List Label} {s : System} (i : ℕ)
    → Budget f limit
    → Reach f ls s
    → NoEarly ls
    → is_closed s.control ≡ false
    → is_running s.control ≡ true
    → i < threads f
    → s.pc i ≡ starved
    → grants ls ≡ limit
starved-spent x i b r ne shut on lt asleep =
    let gone = Reach-IsAsleep x b r ne i lt asleep in
    let budget = budget_set _ shut on in ground (arith, Reach-HasSpent x b r ne budget, gone)
