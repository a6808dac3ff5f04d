-- ===== src/Program/Complete.antt =====
-- testexample.cpp with testframe.cpp: what the program has done once its threads are at rest.
use test_frame.Prelude.{
  ℕ, ◌+◌, ◌^◌, ◌<◌, ◌≡◌, ◌≢◌, refl, true, false, Option, ℤ, pos, List, map, length, Bytes, arith,
  is_pos,
}
use test_frame.Statistic.{report}
use test_frame.Frame.{TestFrame}
use test_frame.Frame.Worker.{Pc, starved, finished}
use test_frame.Frame.System.{Reach, is_running, threads}
use test_frame.Frame.Lock.{is_closed, main_holds, NoEarly}
use test_frame.Frame.Quota.{IsSmall}
use test_frame.Frame.Rate.{grants}
use test_frame.Frame.Idle.{IsIdle, is_resting, Reach-idle}
use test_frame.Frame.Complete.{is_under_way, idle-exact}
use test_frame.Frame.Spent.{starved-spent}
use test_frame.Config.{CmdInfo, Json, Files}
use test_frame.TestCase.{LogFile, TestCaseIot}
use test_frame.Main.{runs, main, set_up}
use test_frame.Main.Limits.{set_up-Limits, set_up-Budget}
use test_frame.Main.Start.{main-IsRun}
use test_frame.Program.{Process, Act, label_of, Ran}
use test_frame.Program.Refines.{Ran-Reach}
use test_frame.Program.Counts.{passed, missed}
use test_frame.Program.Whole.{main-requests-exact}

set_up-free :
    (pointer : ℕ) (i : CmdInfo)
    → i.frequence ≡ 0
    → is_pos (set_up pointer i).frequence_const ≡ false
unfolding set_up
set_up-free pointer i none_set = ground arith

asleep_or_done : (p : Pc) → is_resting p ≡ true → is_under_way p ≡ true → p ≢ finished → p ≡ starved
asleep_or_done starved rests on more = refl
asleep_or_done finished rests on more = absurd (more refl)
asleep_or_done p rests on more = absurd (cc)

module _ (j : Json) (files : Files) (pointer : ℕ) (file : Option ℕ) (stamp : Bytes) (argc : ℕ)
    (filename : Bytes) (cmd : ℤ) (info : CmdInfo) (frame : TestFrame) (tc : TestCaseIot)
    (l : LogFile) {acts : List Act} {p : Process} (i : ℕ) where
  -- From `main` on, without flow control, a load test comes to its end by itself: when `main` runs an
  -- entry with a frequence of 0 and a positive times_limit, which like its number of threads is below
  -- 2 ^ 31, then in a run of fewer than 2 ^ 31 steps, once the threads have been started, with the process
  -- running and no thread that can make a step, unless its wait returns by itself, and with some thread
  -- past the start, exactly times_limit requests have ended, and the report prints as successes those
  -- with the configured text in the response, and as failures the others.
  pub main-idle-exact :
      main j files pointer file stamp argc filename cmd ≡ runs info frame tc l
      → info.frequence ≡ 0
      → 0 < info.times_limit
      → IsSmall info.times_limit
      → IsSmall info.thread_num
      → Ran tc frame l acts p
      → length acts < 2 ^ 31
      → is_closed p.control ≡ false
      → is_running p.control ≡ true
      → IsIdle (threads frame) p.sys
      → i < threads frame
      → is_under_way (p.pc i) ≡ true
      → (passed info.assert acts + missed info.assert acts ≡ info.times_limit)
        × ((report p.statistic).success ≡ pos (passed info.assert acts))
        × ((report p.statistic).failure ≡ pos (missed info.assert acts))
  main-idle-exact h unmetered some small few r short shut on idle lt under_way =
      let run = (main-IsRun j files pointer file stamp argc filename cmd info frame tc l h).2 in
      let reach : Reach (set_up pointer info) (map label_of acts) p.sys =
        rw run.framed at (Ran-Reach r) in
      let (done, counted, none_left) =
        idle-exact info.times_limit i (set_up-Limits pointer info some small few)
          (set_up-free pointer info unmetered) reach shut on (rw run.framed at idle)
          (rw run.framed at lt) under_way in
      main-requests-exact j files pointer file stamp argc filename cmd info frame tc l h some small
        few r short i lt done (rw run.framed none_left)

  -- From `main` on, with flow control, the rate that is asked for is reached: when `main` runs an entry
  -- with a positive frequence, which like its number of threads is below 2 ^ 31, then in a run in which no
  -- wait returns by itself, once the threads have been started, with the process running, the main thread
  -- without the lock and no thread that can make a step, unless its wait returns by itself, and with some
  -- thread past the start that has not left its loop, the threads have let through exactly frequence
  -- packets from the last budget.
  pub main-rate-exact :
      main j files pointer file stamp argc filename cmd ≡ runs info frame tc l
      → 0 < info.frequence
      → IsSmall info.frequence
      → IsSmall info.thread_num
      → Ran tc frame l acts p
      → NoEarly (map label_of acts)
      → is_closed p.control ≡ false
      → is_running p.control ≡ true
      → main_holds p.control ≡ 0
      → IsIdle (threads frame) p.sys
      → i < threads frame
      → is_under_way (p.pc i) ≡ true
      → p.pc i ≢ finished
      → grants (map label_of acts) ≡ info.frequence
  main-rate-exact h some small few r ne shut on unheld idle lt under_way more =
      let run = (main-IsRun j files pointer file stamp argc filename cmd info frame tc l h).2 in
      let reach : Reach (set_up pointer info) (map label_of acts) p.sys =
        rw run.framed at (Ran-Reach r) in
      let rests = Reach-idle i (Ran-Reach r) shut on unheld idle lt in
      starved-spent info.frequence i (set_up-Budget pointer info some small few) reach ne shut on
        (rw run.framed at lt) (asleep_or_done (p.pc i) rests under_way more)
