-- ===== src/Frame/Examples.antt =====
-- Runs of testframe.cpp: the lock, the start and the statistics in the runs of Tests.
use test_frame.Prelude.{
  ℕ, true, false, ◌⊎◌, ◌<◌, ◌+◌, ◌-◌, ◌≤◌, ◌≡◌, ◌≢◌, refl, List, length, arith, pos, int_pred,
  total, total-eq-zero,
}
use test_frame.Statistic.{report, increase_success_count, update_delay}
use test_frame.Statistic.History.{Call}
use test_frame.Frame.Worker.{Move, Label, refilled, preparing, counting}
use test_frame.Frame.System.{System, Drive, drive, run, here, exited, deciding}
use test_frame.Frame.{TestFrame, set_duration_time}
use test_frame.Frame.Start.{Way, stay, go}
use test_frame.Frame.Duration.{exit-after_duration}
use test_frame.Frame.Endless.{Reach-Gets}
use test_frame.Frame.Exit.{Reach-Exits}
use test_frame.Frame.Progress.{Frees, Reach-Frees, Reach-locks}
use test_frame.Frame.Lock.{Reach-HasLock, HasLock, Reach-barrier, started}
use test_frame.Frame.Record.{Reach-Recorded, IsRecord, report-settled, unsettled}
use test_frame.Frame.Stop.{unlimited-goes_on, exited-exact}
use test_frame.Frame.Quota.{turns}
use test_frame.Frame.Tests.{
  Run, one_thread, one_turn, ◌▸◌, case_is_set, one_turn-Limits, whole_run, under_way, one_packet,
  metered_run, at_0,
}

-- The thread is inside `PreExecute`, and the main thread sleeps.
abbrev preparing_run : Run one_thread
preparing_run = record {
  labels = _;
  last = _;
  reach =
      here
      ▸ drive (Drive.has_case case_is_set refl)
      ▸ drive (Drive.create 0 refl (omega arith))
      ▸ drive (Drive.created refl)
      ▸ run 0 (omega arith) refl Move.init
      ▸ run 0 (omega arith) refl (Move.enter refl);
}

Reach-HasLock_example : HasLock 1 preparing_run.last
Reach-HasLock_example = Reach-HasLock {f = one_thread} preparing_run.reach

Reach-barrier_example : total started 1 preparing_run.pc ≡ 0
Reach-barrier_example = Reach-barrier {f = one_thread} preparing_run.reach tt refl

Reach-Recorded_example :
    (h : List Call) × IsRecord one_turn.delay_threshold
      (total unsettled 1 under_way.pc)
      (length under_way.labels)
      h
      under_way.mem
unfolding int_pred
Reach-Recorded_example = Reach-Recorded {f = one_turn} under_way.reach

whole_run_reported :
    (whole_run.statistic.timeout_count ≤ whole_run.statistic.total_count)
    × ((report whole_run.statistic).total ≡ pos whole_run.statistic.total_count)
    × ((report whole_run.statistic).health ≡ record {
      part = pos (whole_run.statistic.total_count - whole_run.statistic.timeout_count);
      whole = pos whole_run.statistic.total_count;
    })
unfolding int_pred increase_success_count update_delay
whole_run_reported =
    report-settled {f = one_turn} whole_run.reach (omega arith)
      (total-eq-zero unsettled 1 whole_run.pc (λ i. ground arith)) (omega arith)

-- The main thread looks at the repeat count a second after the start, with the only test case under way.
abbrev ended_run : Run one_turn
unfolding int_pred
ended_run = record {
  labels = _;
  last = _;
  reach =
      under_way.reach
      ▸ drive (Drive.poll 100 100 101 refl (omega arith))
      ▸ drive (Drive.print 100 101 (report under_way.statistic) refl (omega arith) refl)
      ▸ drive (Drive.reset 100 101 refl)
      ▸ drive (Drive.exit 100 101 refl refl);
}

ended_run_counted : ended_run.statistic.total_count + total turns 1 ended_run.pc ≡ 1
unfolding int_pred
ended_run_counted = exited-exact {f = one_turn} 1 one_turn-Limits refl ended_run.reach refl

preparing_goes_on : preparing_run.control ≢ exited
preparing_goes_on = unlimited-goes_on {f = one_thread} preparing_run.reach refl refl

lock_given_back :
    ((t : System) × Drive 1 preparing_run.last refilled t × (t.held ≡ false))
    ⊎ ((i : ℕ) × (i < 1) × Frees i preparing_run.last 3)
lock_given_back = Reach-Frees {f = one_thread} preparing_run.reach refl refl

abbrev two_threads : TestFrame
two_threads = record one_thread { thread_num = pos 2 }

-- The first thread is inside `PreExecute`, and the second waits for the lock.
abbrev crowded_run : Run two_threads
crowded_run = record {
  labels = _;
  last = _;
  reach =
      here
      ▸ drive (Drive.has_case case_is_set refl)
      ▸ drive (Drive.create 0 refl (omega arith))
      ▸ drive (Drive.create 1 refl (omega arith))
      ▸ drive (Drive.created refl)
      ▸ run 0 (omega arith) refl Move.init
      ▸ run 1 (omega arith) refl Move.init
      ▸ run 0 (omega arith) refl (Move.enter refl);
}

lock_taken :
    (later : List Label) × (t : System) × Way 2 crowded_run.last later t
    × (t.pc 1 ≡ preparing)
    × (t.held ≡ true)
lock_taken = Reach-locks {f = two_threads} 1 preparing crowded_run.reach refl (omega arith) refl

-- A run of a second, with the thread at its start.
abbrev timed : TestFrame
timed = set_duration_time (pos 1) one_thread

abbrev timed_run : Run timed
timed_run = record {
  labels = _;
  last = _;
  reach =
      here
      ▸ drive (Drive.has_case case_is_set refl)
      ▸ drive (Drive.create 0 refl (omega arith))
      ▸ drive (Drive.created refl)
      ▸ drive (Drive.open_free refl refl)
      ▸ run 0 (omega arith) refl Move.init
      ▸ run 0 (omega arith) refl (Move.enter refl)
      ▸ drive (Drive.start 100 refl);
}

record Going (s : System) : Type 0 where
  labels : List Label
  last : System
  way : Way 1 s labels last

-- The thread gives the lock back, and the main thread looks at the clock a second after the start.
abbrev second_later : Going timed_run.last
second_later = record {
  labels = _;
  last = _;
  way =
      go
        (go
          (go (go stay (run 0 (omega arith) refl (Move.pre_execute (pos 0))))
            (drive (Drive.poll 100 100 101 refl (omega arith))))
          (drive (Drive.print 100 101 (report timed_run.statistic) refl (omega arith) refl)))
        (drive (Drive.reset 100 101 refl));
}

exit-after_duration_example :
    (now : ℕ) × (second_later.last.control ≡ deciding 100 now) × (101 ≤ now)
exit-after_duration_example =
    exit-after_duration {s = timed_run.last} 100 refl refl second_later.way
      (Drive.exit 100 101 refl refl) refl

Reach-Exits_example :
    (later : List Label) × (t : System) × Way 1 timed_run.last later t × (t.control ≡ exited)
Reach-Exits_example = Reach-Exits {f = timed} timed_run.reach refl refl refl

-- The thread has found the budget used up, and sleeps.
abbrev starved_run : Run one_packet
unfolding int_pred
starved_run = record {
  labels = _;
  last = _;
  reach =
      metered_run.reach
      ▸ run 0 (omega arith) refl (Move.uncounted refl)
      ▸ run 0 (omega arith) refl (Move.execute (pos 0) at_0 at_0)
      ▸ run 0 (omega arith) refl Move.settle
      ▸ run 0 (omega arith) refl (Move.meter refl refl)
      ▸ run 0 (omega arith) refl (Move.go_on refl)
      ▸ run 0 (omega arith) refl Move.take_one
      ▸ run 0 (omega arith) refl (Move.retry refl)
      ▸ run 0 (omega arith) refl (Move.meter refl refl)
      ▸ run 0 (omega arith) refl (Move.starve refl);
}

Reach-Gets_example :
    (later : List Label) × (t : System) × Way 1 starved_run.last later t × (t.pc 0 ≡ counting)
unfolding int_pred
Reach-Gets_example =
    Reach-Gets {f = one_packet} 0 1 starved_run.reach (omega arith) (omega arith)
      (record { no_count = refl; no_duration = refl; metered = refl }) refl refl (omega arith) refl
