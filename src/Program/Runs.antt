-- ===== src/Program/Runs.antt =====
-- A run of the program with flow control, whose thread has come to rest.
use test_frame.Prelude.{◌≡◌, refl, ap, none, [], map, codes, pos, arith, int_pred}
use test_frame.Frame.Worker.{Move, starved}
use test_frame.Frame.System.{Drive}
use test_frame.Frame.Rate.{grants}
use test_frame.Frame.Runs.{alone-IsIdle, sleeper_waits}
use test_frame.Client.{
  get_server, tcp_iot, connect_server, connect_to, talk, finish, receive_line, fill, c_string,
}
use test_frame.Config.Load.{get_config, find, init}
use test_frame.Config.Examples.{slow_json, slow, slow_parsed}
use test_frame.TestCase.{execute, pre_execute, judge, init_case, add_servers, new_log_file}
use test_frame.Main.{runs, case_of, set_up, run_case, open_log, with_config, main}
use test_frame.Program.{label_of, Turn, called}
use test_frame.Program.Complete.{main-rate-exact}
use test_frame.Program.Tests.{Run, ◌▸◌, case_is_set, net, at_0, disk, stamp}

slow_starts :
    main slow_json disk 0 none [] 3 (codes "test.json") (pos 5)
    ≡ runs slow (set_up 0 slow) (case_of slow) new_log_file
unfolding main init with_config get_config find run_case open_log
slow_starts = ap (with_config slow_json disk 0 none [] (pos 5)) slow_parsed

-- The thread has sent the request of the second, and sleeps.
abbrev slow_run : Run (case_of slow) (set_up 0 slow) new_log_file
unfolding set_up int_pred pre_execute execute judge tcp_iot connect_server connect_to talk finish
    receive_line fill c_string get_server init_case add_servers
slow_run = record {
  acts = _;
  last = _;
  ran =
      called
      ▸ Turn.main (Drive.has_case case_is_set refl)
      ▸ Turn.main (Drive.create 0 refl (omega arith))
      ▸ Turn.main (Drive.created refl)
      ▸ Turn.init 0 (omega arith) refl refl
      ▸ Turn.work 0 (omega arith) refl refl (Move.enter refl)
      ▸ Turn.prepare 0 net stamp (omega arith) refl refl refl
      ▸ Turn.main (Drive.open_budget refl refl)
      ▸ Turn.main (Drive.start 100 refl)
      ▸ Turn.work 0 (omega arith) refl refl (Move.pass refl refl)
      ▸ Turn.work 0 (omega arith) refl refl (Move.meter refl refl)
      ▸ Turn.work 0 (omega arith) refl refl (Move.go_on refl)
      ▸ Turn.work 0 (omega arith) refl refl Move.take_one
      ▸ Turn.work 0 (omega arith) refl refl (Move.grant refl)
      ▸ Turn.work 0 (omega arith) refl refl (Move.count refl refl)
      ▸ Turn.test 0 net stamp at_0 at_0 (omega arith) refl refl refl
      ▸ Turn.work 0 (omega arith) refl refl Move.settle
      ▸ Turn.work 0 (omega arith) refl refl (Move.meter refl refl)
      ▸ Turn.work 0 (omega arith) refl refl (Move.go_on refl)
      ▸ Turn.work 0 (omega arith) refl refl Move.take_one
      ▸ Turn.work 0 (omega arith) refl refl (Move.retry refl)
      ▸ Turn.work 0 (omega arith) refl refl (Move.meter refl refl)
      ▸ Turn.work 0 (omega arith) refl refl (Move.starve refl);
}

main-rate-exact_example : grants (map label_of slow_run.acts) ≡ 1
unfolding set_up int_pred pre_execute execute judge tcp_iot connect_server connect_to talk finish
    receive_line fill c_string get_server init_case add_servers
main-rate-exact_example =
    main-rate-exact slow_json disk 0 none [] 3 (codes "test.json") (pos 5) slow (set_up 0 slow)
      (case_of slow) new_log_file 0 slow_starts (omega arith) (omega arith) (omega arith)
      slow_run.ran tt refl refl refl
      (alone-IsIdle slow_run.last.sys starved refl (λ l m q mv. sleeper_waits l mv)) (omega arith)
      refl (λ e. cc)
