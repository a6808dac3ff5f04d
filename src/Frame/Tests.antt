-- ===== src/Frame/Tests.antt =====
-- Runs of testframe.cpp: one thread, with a repeat count of 1, with a budget of 1, and one that comes late.
use test_frame.Prelude.{
  ℕ, ◌+◌, ◌≤◌, ◌≡◌, ◌≢◌, refl, some, none, Option, List, [], ◌∷◌, arith, pos, negsuc, pos_part,
  neg_part, total, total-eq-zero, int_pred,
}
use test_frame.Synch.{Timeval}
use test_frame.Frame.{
  TestFrame, new_frame, set_test_case, set_thread_num, set_repeat_count, set_frequence, delay,
}
use test_frame.Frame.Worker.{Label, Move, gated}
use test_frame.Frame.System.{System, Drive, Step, drive, run, Reach, here, next, threads, printing}
use test_frame.Frame.Quota.{Limits, turns, turns-exact, finished-exact, all_sent-uncounted}
use test_frame.Frame.Rate.{Budget, grants-le}
use test_frame.Frame.Start.{Way, stay, go, late_thread-waits}

pub record Run (f : TestFrame) : Type 0 where
  pub labels : List Label
  pub last : System
  pub open last use *
  pub reach : Reach f labels last

abbrev pub one_thread : TestFrame
one_thread = set_thread_num (pos 1) (set_test_case (some 0) new_frame)

abbrev pub one_turn : TestFrame
one_turn = set_repeat_count (pos 1) one_thread

abbrev pub one_packet : TestFrame
one_packet = set_frequence (pos 1) one_thread

abbrev pub at_0 : Timeval
at_0 = record { tv_sec = 10; tv_usec = 900000 }

abbrev at_1 : Timeval
at_1 = record { tv_sec = 11; tv_usec = 150999 }

pub case_is_set : ◌≢◌ {A = Option ℕ} (some 0) none
case_is_set e = cc

delay_example : delay at_0 at_1 ≡ pos 250
delay_example = refl

delay_backwards : delay at_1 at_0 ≡ negsuc 249
delay_backwards = refl

infixl 2 ◌▸◌
abbrev pub ◌▸◌ :
    {f : TestFrame} {ls : List Label} {l : Label} {s t : System}
    → Reach f ls s
    → Step (threads f) s l t
    → Reach f (l ∷ ls) t
r ▸ st = next r st

-- The main thread has signalled the start before the thread waits for it.
abbrev pub late : Run one_thread
late = record {
  labels = _;
  last = _;
  reach =
      here
      ▸ drive (Drive.has_case case_is_set refl)
      ▸ drive (Drive.create 0 refl (omega arith))
      ▸ drive (Drive.created refl)
      ▸ drive (Drive.open_free refl refl)
      ▸ drive (Drive.start 100 refl)
      ▸ run 0 (omega arith) refl Move.init
      ▸ run 0 (omega arith) refl (Move.enter refl)
      ▸ run 0 (omega arith) refl (Move.pre_execute (pos 0));
}

-- A second later.
abbrev later : Way 1 late.last (Label.quiet ∷ []) (record late.last { control = printing 100 101 })
later = go stay (drive (Drive.poll 100 100 101 refl (omega arith)))

late_thread-waits_example : late.pc 0 ≡ gated (pos 0)
late_thread-waits_example =
    late_thread-waits 0 (pos 0) {f = one_thread} late.reach refl refl refl tt later

-- One thread takes the only turn, and then finds none left.
abbrev pub whole_run : Run one_turn
unfolding int_pred
whole_run = record {
  labels = _;
  last = _;
  reach =
      here
      ▸ drive (Drive.has_case case_is_set refl)
      ▸ drive (Drive.create 0 refl (omega arith))
      ▸ drive (Drive.created refl)
      ▸ drive (Drive.open_free refl refl)
      ▸ run 0 (omega arith) refl Move.init
      ▸ run 0 (omega arith) refl (Move.enter refl)
      ▸ run 0 (omega arith) refl (Move.pre_execute (pos 0))
      ▸ drive (Drive.start 100 refl)
      ▸ run 0 (omega arith) refl (Move.pass refl refl)
      ▸ run 0 (omega arith) refl (Move.unmetered refl)
      ▸ run 0 (omega arith) refl (Move.count refl refl)
      ▸ run 0 (omega arith) refl (Move.execute (pos 0) at_0 at_1)
      ▸ run 0 (omega arith) refl Move.settle
      ▸ run 0 (omega arith) refl (Move.unmetered refl)
      ▸ run 0 (omega arith) refl (Move.quit refl refl);
}

-- The same, up to the test case.
abbrev pub under_way : Run one_turn
unfolding int_pred
under_way = record {
  labels = _;
  last = _;
  reach =
      here
      ▸ drive (Drive.has_case case_is_set refl)
      ▸ drive (Drive.create 0 refl (omega arith))
      ▸ drive (Drive.created refl)
      ▸ drive (Drive.open_free refl refl)
      ▸ run 0 (omega arith) refl Move.init
      ▸ run 0 (omega arith) refl (Move.enter refl)
      ▸ run 0 (omega arith) refl (Move.pre_execute (pos 0))
      ▸ drive (Drive.start 100 refl)
      ▸ run 0 (omega arith) refl (Move.pass refl refl)
      ▸ run 0 (omega arith) refl (Move.unmetered refl)
      ▸ run 0 (omega arith) refl (Move.count refl refl);
}

abbrev pub one_turn-Limits : Limits one_turn 1
one_turn-Limits = record {
  small = omega arith;
  few = omega arith;
  some_turn = omega arith;
  set_const = refl;
  set_count = refl;
}

turns-exact_example :
    under_way.statistic.total_count
      + total turns 1 under_way.pc
      + pos_part under_way.repeat_count.ci_count
    ≡ 1
unfolding int_pred
turns-exact_example = turns-exact 1 one_turn-Limits under_way.reach

whole_run_counted : whole_run.statistic.total_count ≡ 1
unfolding int_pred
whole_run_counted =
    finished-exact 1 one_turn-Limits whole_run.reach 0 (omega arith) refl
      (total-eq-zero turns 1 whole_run.pc (λ i. ground arith))

under_way_uncounted : under_way.statistic.total_count + total turns 1 under_way.pc ≡ 1
unfolding int_pred
under_way_uncounted = all_sent-uncounted 1 one_turn-Limits under_way.reach refl

-- One packet goes out, and at the next the budget is used up.
abbrev pub metered_run : Run one_packet
unfolding int_pred
metered_run = record {
  labels = _;
  last = _;
  reach =
      here
      ▸ drive (Drive.has_case case_is_set refl)
      ▸ drive (Drive.create 0 refl (omega arith))
      ▸ drive (Drive.created refl)
      ▸ run 0 (omega arith) refl Move.init
      ▸ run 0 (omega arith) refl (Move.enter refl)
      ▸ run 0 (omega arith) refl (Move.pre_execute (pos 0))
      ▸ drive (Drive.open_budget refl refl)
      ▸ drive (Drive.start 100 refl)
      ▸ run 0 (omega arith) refl (Move.pass refl refl)
      ▸ run 0 (omega arith) refl (Move.meter refl refl)
      ▸ run 0 (omega arith) refl (Move.go_on refl)
      ▸ run 0 (omega arith) refl Move.take_one
      ▸ run 0 (omega arith) refl (Move.grant refl);
}

abbrev one_packet-Budget : Budget one_packet 1
one_packet-Budget = record {
  small = omega arith;
  few = omega arith;
  some_packet = omega arith;
  set_const = refl;
  set_count = refl;
}

grants-le_example : (1 ≤ 1) × (neg_part metered_run.frequence.ci_count ≤ 1)
unfolding int_pred
grants-le_example = grants-le 1 one_packet-Budget metered_run.reach tt
