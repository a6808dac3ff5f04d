-- ===== src/Program/Whole.antt =====
-- testexample.cpp with testframe.cpp: the program from `main` on, and what its numbers say in the end.
use test_frame.Prelude.{
  ℕ, ◌+◌, ◌-◌, ◌*◌, ◌^◌, ◌≤◌, ◌<◌, ◌≡◌, ap, Option, ℤ, pos, List, map, length, Bytes, arith, total,
  total-add-le, total_mono,
}
use test_frame.Statistic.{report}
use test_frame.Statistic.Summary.{after-counts}
use test_frame.Frame.{TestFrame}
use test_frame.Frame.Worker.{finished, Label}
use test_frame.Frame.System.{System, Reach, threads, polling}
use test_frame.Frame.Lock.{NoEarly}
use test_frame.Frame.Pace.{sending, pace-kept}
use test_frame.Frame.Record.{unsettled, Reach-Recorded}
use test_frame.Frame.Quota.{IsSmall, turns, finished-exact}
use test_frame.Config.{CmdInfo, Json, Files}
use test_frame.TestCase.{LogFile, TestCaseIot}
use test_frame.Main.{runs, main, set_up}
use test_frame.Main.Limits.{set_up-Limits, set_up-Budget, times_limit-kept}
use test_frame.Main.Start.{main-IsRun}
use test_frame.Program.{Process, Act, label_of, Ran}
use test_frame.Program.Refines.{Ran-Reach, length-labels}
use test_frame.Program.Counts.{passed, missed, good, bad, Ran-HasCounts, report-answers}

-- The two counts add up to the total.
counts-total :
    {f : TestFrame} {ls : List Label} {s : System}
    → Reach f ls s
    → length ls < 2 ^ 31
    → s.statistic.success_count + s.statistic.failure_count ≡ s.statistic.total_count
counts-total {f} {s = s} r few =
    let (h, rec) = Reach-Recorded r in
    let (run, second) = after-counts f.delay_threshold h (omega (arith, rec.of_steps)) in
    let same : s.statistic ≡ _ = rec.of_calls in
    rw same (omega (arith, run.of_success, run.of_failure, run.of_total))

module _ {tc : TestCaseIot} (pointer : ℕ) (info : CmdInfo) {l : LogFile} {acts : List Act}
    {p : Process} (some : 0 < info.times_limit) (small : IsSmall info.times_limit)
    (few : IsSmall info.thread_num) (r : Ran tc (set_up pointer info) l acts p)
    (short : length acts < 2 ^ 31) where
  requests-le : passed tc.assert acts + missed tc.assert acts ≤ info.times_limit
  requests-le =
      let n = threads (set_up pointer info) in
      let reach = Ran-Reach r in
      let same = length-labels acts in
      let c = Ran-HasCounts r short in
      omega (
        arith,
        c.successes,
        c.failures,
        counts-total reach (omega arith),
        total-add-le good bad turns (λ x. ground arith) n p.pc,
        times_limit-kept pointer info some small few reach,
      )

  requests-exact :
      (i : ℕ)
      → i < threads (set_up pointer info)
      → p.pc i ≡ finished
      → total turns (threads (set_up pointer info)) p.pc ≡ 0
      → (passed tc.assert acts + missed tc.assert acts ≡ info.times_limit)
        × ((report p.statistic).success ≡ pos (passed tc.assert acts))
        × ((report p.statistic).failure ≡ pos (missed tc.assert acts))
  requests-exact i lt e none_left =
      let n = threads (set_up pointer info) in
      let reach = Ran-Reach r in
      let same = length-labels acts in
      let c = Ran-HasCounts r short in
      let settled : total unsettled n p.pc ≡ 0 =
        omega (arith, total_mono unsettled turns (λ x. ground arith) n p.pc) in
      let printed = report-answers r short settled in
      (
        omega (
          arith,
          c.successes,
          c.failures,
          counts-total reach (omega arith),
          total-add-le good bad turns (λ x. ground arith) n p.pc,
          finished-exact info.times_limit (set_up-Limits pointer info some small few) reach i lt e
              none_left,
        ),
        printed.0,
        printed.1,
      )

module _ (j : Json) (files : Files) (pointer : ℕ) (file : Option ℕ) (stamp : Bytes) (argc : ℕ)
    (filename : Bytes) (cmd : ℤ) (info : CmdInfo) (frame : TestFrame) (tc : TestCaseIot)
    (l : LogFile) {acts : List Act} {p : Process} where
  -- The program sends no more than it was asked for: where `main` comes to run the frame, for an entry
  -- whose "times_limit" is positive and, like its "thread_num", below 2 ^ 31, in a run of fewer than
  -- 2 ^ 31 steps, however the threads interleave and whatever the network answers, at most
  -- "times_limit" requests of `Execute` have ended, with the text that is looked for or without it.
  pub main-requests-le :
      main j files pointer file stamp argc filename cmd ≡ runs info frame tc l
      → 0 < info.times_limit
      → IsSmall info.times_limit
      → IsSmall info.thread_num
      → Ran tc frame l acts p
      → length acts < 2 ^ 31
      → passed info.assert acts + missed info.assert acts ≤ info.times_limit
  main-requests-le h some small few r short =
      let run = (main-IsRun j files pointer file stamp argc filename cmd info frame tc l h).2 in
      let set : Ran tc (set_up pointer info) l acts p = rw run.framed at r in
      let same : tc.assert ≡ info.assert = ap (λ (t : TestCaseIot). t.assert) run.tested in
      rw same at (requests-le pointer info some small few set short)

  -- The program does what it was asked for and says so: where `main` comes to run the frame, for an
  -- entry whose "times_limit" is positive and, like its "thread_num", below 2 ^ 31, in a run of fewer
  -- than 2 ^ 31 steps, however the threads interleave and whatever the network answers, once a thread
  -- has found no turn left and no test case is under way, exactly "times_limit" requests of
  -- `Execute` have ended; the printed number of successes is the number of those for which `tcp_iot`
  -- returned SDK_SUCCESS with a response that holds the configured text, and the printed number of
  -- failures is that of the others.
  pub main-requests-exact :
      main j files pointer file stamp argc filename cmd ≡ runs info frame tc l
      → 0 < info.times_limit
      → IsSmall info.times_limit
      → IsSmall info.thread_num
      → Ran tc frame l acts p
      → length acts < 2 ^ 31
      → (i : ℕ) → i < threads frame
      → p.pc i ≡ finished
      → total turns (threads frame) p.pc ≡ 0
      → (passed info.assert acts + missed info.assert acts ≡ info.times_limit)
        × ((report p.statistic).success ≡ pos (passed info.assert acts))
        × ((report p.statistic).failure ≡ pos (missed info.assert acts))
  main-requests-exact h some small few r short i lt e none_left =
      let run = (main-IsRun j files pointer file stamp argc filename cmd info frame tc l h).2 in
      let set : Ran tc (set_up pointer info) l acts p = rw run.framed at r in
      let same : tc.assert ≡ info.assert = ap (λ (t : TestCaseIot). t.assert) run.tested in
      rw same at (
        requests-exact pointer info some small few set short i (rw run.framed at lt) e
          (rw run.framed at none_left))

  -- The program sends no faster than it was asked to: where `main` comes to run the frame, for an entry
  -- whose "frequence" is positive and, like its "thread_num", below 2 ^ 31, in every run in which no wait
  -- returns by itself, whatever the network answers, at the head of the loop of the main thread, where
  -- the clock read `begin` at the start and `last` when the loop last acted, the test cases counted
  -- and under way are together at most "frequence" for each second since the start, the one under way
  -- included.
  pub main-pace :
      (begin last : ℕ)
      → main j files pointer file stamp argc filename cmd ≡ runs info frame tc l
      → 0 < info.frequence
      → IsSmall info.frequence
      → IsSmall info.thread_num
      → Ran tc frame l acts p
      → NoEarly (map label_of acts)
      → p.control ≡ polling begin last
      → (begin ≤ last)
        × (p.statistic.total_count + total turns (threads frame) p.pc
            ≤ (last - begin + 1) * info.frequence)
  main-pace begin last h some small few r ne e =
      let run = (main-IsRun j files pointer file stamp argc filename cmd info frame tc l h).2 in
      let reach : Reach (set_up pointer info) (map label_of acts) p.sys =
        rw run.framed at (Ran-Reach r) in
      let pace =
        pace-kept info.frequence begin last (set_up-Budget pointer info some small few) reach ne
          e in
      let le = total_mono turns sending (λ x. ground arith) (threads (set_up pointer info)) p.pc in
      (pace.0, rw run.framed (omega (arith, pace.2, le)))
