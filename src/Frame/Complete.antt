-- ===== src/Frame/Complete.antt =====
-- testframe.cpp: how a run with a repeat count comes to its end.
use test_frame.Prelude.{
  ℕ, ◌<◌, ◌≡◌, inl, inr, refl, true, false, Bool, Bool-cases, List, arith, is_pos, total, ◌==◌,
}
use test_frame.Frame.{TestFrame}
use test_frame.Frame.Worker.{
  Shared, Pc, unborn, born, entering, preparing, gated, called, refused, metering, starved, resumed,
  taking, checking, finished, Label, Move,
}
use test_frame.Frame.System.{
  System, Drive, create, start, refill, drive, run, is_running, Reach, here, next, threads,
}
use test_frame.Frame.Lock.{is_closed}
use test_frame.Frame.Progress.{total-some}
use test_frame.Frame.Start.{Reach-unmetered}
use test_frame.Frame.Threads.{Reach-Settings}
use test_frame.Frame.Quota.{Limits, turns, finished-exact}
use test_frame.Frame.Idle.{IsIdle, is_resting, Reach-idle}

-- Whether the thread is inside of the flow control, but for its first test.
abbrev is_inside : Pc → Bool
is_inside metering = true
is_inside starved = true
is_inside resumed = true
is_inside taking = true
is_inside checking = true
is_inside _ = false

Move-outside :
    {m m' : Shared} {p p' : Pc} {l : Label}
    → Move m p l m' p'
    → is_pos m.frequence_const ≡ false
    → is_inside p ≡ false
    → is_inside p' ≡ false
Move-outside Move.init free h = refl
Move-outside (Move.meter a b) free h = absurd (cc)
Move-outside mv free h = ground arith

Drive-outside :
    {n : ℕ} {s t : System} {l : Label} (j : ℕ)
    → Drive n s l t
    → is_inside (s.pc j) ≡ false
    → is_inside (t.pc j) ≡ false
Drive-outside j (create k e lt) h = ground arith
Drive-outside j (start now e) h = ground arith
Drive-outside j (refill b now e) h = ground arith
Drive-outside j d h = h

-- Without flow control no thread is inside of it.
Reach-outside :
    {f : TestFrame} {ls : List Label} {s : System} (j : ℕ)
    → Reach f ls s
    → is_pos f.frequence_const ≡ false
    → is_inside (s.pc j) ≡ false
Reach-outside j here free = refl
Reach-outside j (next r (drive d)) free = Drive-outside j d (Reach-outside j r free)
Reach-outside j (next {s = s} r (run i {p = p} lt on mv)) free =
    let still_free : is_pos s.frequence_const ≡ false = rw (Reach-Settings r).same_frequence free in
    elim (Bool-cases (i == j)) [
      | inl same ↦ rw same (Move-outside mv still_free (Reach-outside i r free))
      | inr other ↦ rw other (Reach-outside j r free)
    ]

-- Whether a thread is in its loop, or has left it at the end.
abbrev pub is_under_way : Pc → Bool
is_under_way unborn = false
is_under_way born = false
is_under_way entering = false
is_under_way preparing = false
is_under_way (gated rc) = false
is_under_way (called rc) = false
is_under_way refused = false
is_under_way _ = true

resting-finished :
    (p : Pc) → is_resting p ≡ true → is_inside p ≡ false → is_under_way p ≡ true → p ≡ finished
resting-finished finished a b c = refl
resting-finished p a b c = absurd (cc)

resting-turns : (p : Pc) → is_resting p ≡ true → turns p ≡ 0
resting-turns p rests = ground arith

-- A run with a repeat count comes to its end by itself: with a positive repeat count, which like the
-- number of threads is below 2 ^ 31, and without flow control, in a state that can be reached once
-- the threads have been started, in which the process runs and no thread can make a step, unless its wait
-- returns by itself, every thread that has passed the start has left its loop, and where there is
-- one, exactly the set number of test cases has been counted.
pub idle-exact :
    {f : TestFrame} (limit : ℕ) {ls : List Label} {s : System} (i : ℕ)
    → Limits f limit
    → is_pos f.frequence_const ≡ false
    → Reach f ls s
    → is_closed s.control ≡ false
    → is_running s.control ≡ true
    → IsIdle (threads f) s
    → i < threads f
    → is_under_way (s.pc i) ≡ true
    → (s.pc i ≡ finished) × (s.statistic.total_count ≡ limit) × (total turns (threads f) s.pc ≡ 0)
idle-exact {f} limit {s = s} i c free r shut on idle lt under_way =
    let still_free : is_pos s.frequence_const ≡ false = rw (Reach-Settings r).same_frequence free in
    let unheld = Reach-unmetered r still_free in
    let done =
      resting-finished (s.pc i) (Reach-idle i r shut on unheld idle lt) (Reach-outside i r free)
        under_way in
    let none_left : total turns (threads f) s.pc ≡ 0 =
      elim (Bool-cases (total turns (threads f) s.pc == 0)) [
        | inl none_counted ↦ ground arith
        | inr some_counted ↦
            let (j, lt', w) = total-some turns (threads f) s.pc (ground arith) in
            absurd (w (resting-turns (s.pc j) (Reach-idle j r shut on unheld idle lt')))
      ] in
    (done, finished-exact limit c r i lt done none_left, none_left)
