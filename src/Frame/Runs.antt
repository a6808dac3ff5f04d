-- ===== src/Frame/Runs.antt =====
-- Runs of testframe.cpp: the work of the threads, their rest and the lines of the seconds.
use test_frame.Prelude.{◌+◌, ◌*◌, ◌≤◌, ◌≡◌, refl, ap, ◌∙◌, true, arith, pos, int_pred, List}
use test_frame.Statistic.{report, reset_ps, increase_success_count, update_delay}
use test_frame.Frame.{TestFrame, set_frequence}
use test_frame.Frame.Worker.{Shared, Pc, starved, finished, Label, early, Move}
use test_frame.Frame.System.{System, Drive, drive, run, here}
use test_frame.Frame.Quota.{Limits}
use test_frame.Frame.Rate.{Budget}
use test_frame.Frame.Pace.{budgets}
use test_frame.Frame.Work.{moves, moves-le}
use test_frame.Frame.Effort.{moves-metered-le}
use test_frame.Frame.Idle.{IsIdle, is_resting, Reach-idle}
use test_frame.Frame.Complete.{idle-exact}
use test_frame.Frame.Ends.{Ends}
use test_frame.Frame.Finish.{Reach-Finishes}
use test_frame.Frame.Start.{Way}
use test_frame.Frame.Lock.{NoEarly}
use test_frame.Frame.Seconds.{shown, lost, to_show, seconds-exact}
use test_frame.Frame.Tests.{
  Run, one_turn, ◌▸◌, case_is_set, one_turn-Limits, whole_run, under_way, at_0,
}

moves-le_example : moves whole_run.reach ≤ 10 * 1 + 4 * 1
unfolding int_pred
moves-le_example = moves-le {f = one_turn} 1 one_turn-Limits refl whole_run.reach

whole_run_moves : moves whole_run.reach ≡ 10
unfolding moves int_pred
whole_run_moves = refl

-- A repeat count and a rate of 1.
abbrev both : TestFrame
both = set_frequence (pos 1) one_turn

abbrev both-Limits : Limits both 1
both-Limits = record {
  small = omega arith;
  few = omega arith;
  some_turn = omega arith;
  set_const = refl;
  set_count = refl;
}

abbrev both-Budget : Budget both 1
both-Budget = record {
  small = omega arith;
  few = omega arith;
  some_packet = omega arith;
  set_const = refl;
  set_count = refl;
}

-- The thread has used its turn and the budget, and sleeps.
abbrev sleeping_run : Run both
unfolding int_pred
sleeping_run = record {
  labels = _;
  last = _;
  reach =
      here
      ▸ drive (Drive.has_case case_is_set refl)
      ▸ drive (Drive.create 0 refl (omega arith))
      ▸ drive (Drive.created refl)
      ▸ run 0 (omega arith) refl Move.init
      ▸ run 0 (omega arith) refl (Move.enter refl)
      ▸ run 0 (omega arith) refl (Move.pre_execute (pos 0))
      ▸ drive (Drive.open_budget refl refl)
      ▸ drive (Drive.start 100 refl)
      ▸ run 0 (omega arith) refl (Move.pass refl refl)
      ▸ run 0 (omega arith) refl (Move.meter refl refl)
      ▸ run 0 (omega arith) refl (Move.go_on refl)
      ▸ run 0 (omega arith) refl Move.take_one
      ▸ run 0 (omega arith) refl (Move.grant refl)
      ▸ run 0 (omega arith) refl (Move.count refl refl)
      ▸ run 0 (omega arith) refl (Move.execute (pos 0) at_0 at_0)
      ▸ run 0 (omega arith) refl Move.settle
      ▸ run 0 (omega arith) refl (Move.meter refl refl)
      ▸ run 0 (omega arith) refl (Move.go_on refl)
      ▸ run 0 (omega arith) refl Move.take_one
      ▸ run 0 (omega arith) refl (Move.retry refl)
      ▸ run 0 (omega arith) refl (Move.meter refl refl)
      ▸ run 0 (omega arith) refl (Move.starve refl);
}

moves-metered-le_example :
    moves sleeping_run.reach
    ≤ 11 * 1 + 5 * 1 + 4 + budgets sleeping_run.labels * (4 * (1 + 1) + 5 * 1)
unfolding int_pred
moves-metered-le_example =
    moves-metered-le {f = both} 1 1 both-Limits both-Budget sleeping_run.reach tt

-- A thread that sleeps or has returned makes no step, unless its wait returns by itself.
pub sleeper_waits : {m m' : Shared} {p' : Pc} (l : Label) → Move m starved l m' p' → l ≡ early
sleeper_waits early Move.resume_early = refl
sleeper_waits Label.quiet mv = elim mv [ ]
sleeper_waits Label.refilled mv = elim mv [ ]
sleeper_waits Label.granted mv = elim mv [ ]

pub none_from_finished : {m m' : Shared} {p' : Pc} (l : Label) → Move m finished l m' p' → l ≡ early
none_from_finished l mv = elim mv [ ]

-- The only thread is at rest, so all are.
pub alone-IsIdle :
    (s : System) (p : Pc)
    → s.pc 0 ≡ p
    → ((l : Label) (m : Shared) (q : Pc) → Move s.mem p l m q → l ≡ early)
    → IsIdle 1 s
alone-IsIdle s p at rests i lt l m q mv =
    let first : i ≡ 0 = omega (arith, lt) in rests l m q (rw (ap s.pc first ∙ at) at mv)

Reach-idle_example : is_resting (sleeping_run.pc 0) ≡ true
unfolding int_pred
Reach-idle_example =
    Reach-idle {f = both} 0 sleeping_run.reach refl refl refl
      (alone-IsIdle sleeping_run.last starved refl (λ l m q mv. sleeper_waits l mv)) (omega arith)

whole_run_ends : (whole_run.pc 0 ≡ finished) × (whole_run.statistic.total_count ≡ 1)
unfolding int_pred
whole_run_ends =
    let (done, counted, none_left) =
      idle-exact {f = one_turn} 1 0 one_turn-Limits refl whole_run.reach refl refl
        (alone-IsIdle whole_run.last finished refl (λ l m q mv. none_from_finished l mv))
        (omega arith) refl in
    (done, counted)

Reach-Finishes_example :
    (later : List Label) × (t : System) × Way 1 under_way.last later t
    × NoEarly later
    × (t.control ≡ under_way.control)
    × (t.pc 0 ≡ finished)
    × (t.statistic.total_count ≡ 1)
    × Ends 1 t 1
unfolding int_pred
Reach-Finishes_example =
    Reach-Finishes {f = one_turn} 1 one_turn-Limits 0 under_way.last refl refl refl under_way.reach
      (omega arith) refl

-- The thread records its result between the line of a second and the reset.
abbrev lost_run : Run one_turn
unfolding int_pred
lost_run = record {
  labels = _;
  last = _;
  reach =
      under_way.reach
      ▸ run 0 (omega arith) refl (Move.execute (pos 0) at_0 at_0)
      ▸ drive (Drive.poll 100 100 101 refl (omega arith))
      ▸ drive (Drive.print 100 101 _ refl (omega arith) refl)
      ▸ run 0 (omega arith) refl Move.settle
      ▸ drive (Drive.reset 100 101 refl);
}

seconds-exact_example :
    lost_run.statistic.total_count
    ≡ shown lost_run.reach + to_show lost_run.last + lost lost_run.reach
unfolding int_pred
seconds-exact_example = seconds-exact {f = one_turn} lost_run.reach (omega arith)

result_lost : (lost_run.statistic.total_count ≡ 1) × (lost lost_run.reach ≡ 1)
unfolding int_pred lost increase_success_count update_delay report reset_ps
result_lost = (refl, refl)
