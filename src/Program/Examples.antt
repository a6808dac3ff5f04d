-- ===== src/Program/Examples.antt =====
-- A run of the program with flow control: two threads, of which one sends a request.
use test_frame.Prelude.{
  ◌+◌, ◌-◌, ◌*◌, ◌≤◌, ◌≡◌, refl, ap, none, some, ◌∷◌, pos, [], codes, arith, total, int_pred,
}
use test_frame.Frame.Worker.{Move}
use test_frame.Frame.System.{Drive, threads}
use test_frame.Frame.Quota.{turns}
use test_frame.Client.{
  get_server, tcp_iot, connect_server, connect_to, talk, finish, receive_line, fill, c_string,
  returns, sdk_success,
}
use test_frame.Config.Load.{get_config, find, init}
use test_frame.Config.Examples.{json, first, document_parsed, single_json, single}
use test_frame.TestCase.{
  log, put_text, execute, pre_execute, judge, init_case, add_servers, new_log_file,
}
use test_frame.Main.{runs, case_of, set_up, run_case, open_log, with_config, main}
use test_frame.Program.{Process, tested, Turn, called}
use test_frame.Program.Whole.{main-pace}
use test_frame.Program.Handles.{main-goes_on}
use test_frame.Program.Tests.{
  executing_run, opened, Run, ◌▸◌, case_is_set, net, at_0, disk, stamp, started,
}

paced :
    main json disk 0 none [] 3 (codes "test.json") (pos 7)
    ≡ runs first (set_up 0 first) (case_of first) new_log_file
unfolding main init with_config get_config find run_case open_log
paced = ap (with_config json disk 0 none [] (pos 7)) document_parsed

-- The first thread takes a packet from the budget, and a second later the main thread sets a new one.
abbrev paced_run : Run (case_of first) (set_up 0 first) new_log_file
unfolding set_up int_pred pre_execute execute judge tcp_iot connect_server connect_to talk finish
    receive_line fill c_string get_server init_case add_servers
paced_run = record {
  acts = _;
  last = _;
  ran =
      called
      ▸ Turn.main (Drive.has_case case_is_set refl)
      ▸ Turn.main (Drive.create 0 refl (omega arith))
      ▸ Turn.main (Drive.create 1 refl (omega arith))
      ▸ Turn.main (Drive.created refl)
      ▸ Turn.init 0 (omega arith) refl refl
      ▸ Turn.work 0 (omega arith) refl refl (Move.enter refl)
      ▸ Turn.prepare 0 net stamp (omega arith) refl refl refl
      ▸ Turn.main (Drive.open_budget refl refl)
      ▸ Turn.main (Drive.start 100 refl)
      ▸ Turn.work 0 (omega arith) refl refl (Move.pass refl refl)
      ▸ Turn.work 0 (omega arith) refl refl (Move.meter refl refl)
      ▸ Turn.work 0 (omega arith) refl refl (Move.go_on refl)
      ▸ Turn.work 0 (omega arith) refl refl Move.take_one
      ▸ Turn.work 0 (omega arith) refl refl (Move.grant refl)
      ▸ Turn.work 0 (omega arith) refl refl (Move.count refl refl)
      ▸ Turn.test 0 net stamp at_0 at_0 (omega arith) refl refl refl
      ▸ Turn.main (Drive.poll 100 100 101 refl (omega arith))
      ▸ Turn.main (Drive.print 100 101 _ refl (omega arith) refl)
      ▸ Turn.main (Drive.reset 100 101 refl)
      ▸ Turn.main (Drive.acquire 100 101 refl refl refl refl)
      ▸ Turn.main (Drive.refill 100 101 refl);
}

main-pace_example :
    (100 ≤ 101)
    × (paced_run.statistic.total_count + total turns (threads (set_up 0 first)) paced_run.pc
        ≤ (101 - 100 + 1) * 10)
unfolding set_up int_pred pre_execute execute judge tcp_iot connect_server connect_to talk finish
    receive_line fill c_string get_server init_case add_servers
main-pace_example =
    main-pace json disk 0 none [] 3 (codes "test.json") (pos 7) first (set_up 0 first)
      (case_of first) new_log_file 100 101 paced (omega arith) (omega arith) (omega arith)
      paced_run.ran tt refl

main-goes_on_example :
    (q : Process) × Turn
      (case_of single)
      1
      executing_run.last
      (tested stamp (returns sdk_success (fill (111 ∷ 107 ∷ 10 ∷ []))))
      q
unfolding set_up int_pred pre_execute execute judge log put_text tcp_iot connect_server connect_to
    talk finish receive_line fill c_string get_server init_case add_servers
main-goes_on_example =
    main-goes_on single_json disk 0 (some 3) stamp 3 (codes "test.json") (pos 9) single
      (set_up 0 single) (case_of single) opened 0 net stamp at_0 at_0 sdk_success
      (fill (111 ∷ 107 ∷ 10 ∷ [])) started executing_run.ran (omega arith) refl refl refl
