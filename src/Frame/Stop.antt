-- ===== src/Frame/Stop.antt =====
-- testframe.cpp: what holds once `Run` has left its loop by `exit(0)`.
use test_frame.Prelude.{ℕ, ◌+◌, ◌≡◌, ◌≢◌, ◌⊎◌, inl, inr, true, false, List, arith, is_pos, total}
use test_frame.Frame.{TestFrame, all_sent}
use test_frame.Frame.Worker.{Label}
use test_frame.Frame.System.{
  System, Drive, exit, Step, drive, run, exited, is_running, Reach, here, next, threads,
}
use test_frame.Frame.Threads.{Reach-Settings}
use test_frame.Frame.Quota.{Limits, turns, all_sent-uncounted}

IsStopped : System → Type 0
IsStopped s = s.control ≡ exited → (all_sent s.frame ≡ true) ⊎ (is_pos s.duration_time ≡ true)

Drive-IsStopped : {n : ℕ} {s t : System} {l : Label} → Drive n s l t → IsStopped t
unfolding IsStopped
Drive-IsStopped (exit b now e over) stopped = ground arith
Drive-IsStopped d stopped = absurd (cc)

Step-IsStopped : {n : ℕ} {s t : System} {l : Label} → Step n s l t → IsStopped t
unfolding IsStopped
Step-IsStopped (drive d) stopped = Drive-IsStopped d stopped
Step-IsStopped {s = s} (run i lt on mv) stopped =
    let never : is_running exited ≡ true = rw stopped at on in absurd (cc)

Reach-IsStopped : {f : TestFrame} {ls : List Label} {s : System} → Reach f ls s → IsStopped s
unfolding IsStopped
Reach-IsStopped here stopped = absurd (cc)
Reach-IsStopped (next r st) stopped = Step-IsStopped st stopped

-- Without a repeat count and without a duration the run goes on: no interleaving comes to `exit(0)`.
pub unlimited-goes_on :
    {f : TestFrame} {ls : List Label} {s : System}
    → Reach f ls s
    → is_pos f.repeat_count_const ≡ false
    → is_pos f.duration_time ≡ false
    → s.control ≢ exited
unfolding IsStopped
unlimited-goes_on {f} {ls} {s} r count duration stopped =
    let v = Reach-Settings r in
    let none_sent : is_pos s.repeat_count_const ≡ false = rw v.same_repeat count in
    let no_time : is_pos s.duration_time ≡ false = rw v.same_duration duration in
    elim (Reach-IsStopped r stopped) [
      | inl sent ↦ absurd (ground (arith, sent))
      | inr time ↦ absurd (ground (arith, time))
    ]

-- A run with a repeat count (positive, and like the number of threads below 2 ^ 31) and without a
-- duration comes to `exit(0)` only when all its test cases are counted or under way.
pub exited-exact :
    {f : TestFrame} (limit : ℕ) {ls : List Label} {s : System}
    → Limits f limit
    → is_pos f.duration_time ≡ false
    → Reach f ls s
    → s.control ≡ exited
    → s.statistic.total_count + total turns (threads f) s.pc ≡ limit
unfolding IsStopped
exited-exact limit {s = s} c duration r stopped =
    let v = Reach-Settings r in
    let no_time : is_pos s.duration_time ≡ false = rw v.same_duration duration in
    elim (Reach-IsStopped r stopped) [
      | inl sent ↦ all_sent-uncounted limit c r sent
      | inr time ↦ absurd (ground (arith, time))
    ]
