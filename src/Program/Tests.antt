-- ===== src/Program/Tests.antt =====
-- A run of the program: one thread sends one request, and the server answers it.
use test_frame.Prelude.{
  ℕ, ◌+◌, ◌≤◌, ◌≡◌, ◌≢◌, ◌⊎◌, refl, ap, true, none, some, Option, pos, List, [], ◌∷◌, ◌++◌, length,
  Bytes, codes, arith, total, total-eq-zero, int_pred, map,
}
use test_frame.Synch.{Timeval}
use test_frame.Statistic.{report}
use test_frame.Frame.{TestFrame}
use test_frame.Frame.Worker.{Move, refused, finished}
use test_frame.Frame.System.{Drive, Reach, threads}
use test_frame.Frame.Record.{unsettled}
use test_frame.Frame.Quota.{turns}
use test_frame.Text.{decimal, decimal_loop}
use test_frame.Client.{
  Address, get_server, Network, received, tcp_iot, connect_server, connect_to, talk, finish,
  receive_line, fill, c_string,
}
use test_frame.Client.Reply.{IsServer}
use test_frame.Config.{Files}
use test_frame.Config.Load.{init, get_config, find}
use test_frame.Config.Examples.{single_json, single, single_parsed}
use test_frame.TestCase.{
  LogFile, TestCaseIot, execute, pre_execute, judge, log, put_text, init_case, add_servers,
  init_log,
}
use test_frame.TestCase.Results.{given}
use test_frame.Main.{runs, case_of, set_up, run_case, open_log, with_config, main, to_str}
use test_frame.Program.{Process, Act, label_of, Turn, Ran, called, and_then}
use test_frame.Program.Refines.{Ran-Reach}
use test_frame.Program.Counts.{passed, missed, report-answers}
use test_frame.Program.Clients.{get_server-given}
use test_frame.Program.Log.{Extends, lines, Ran-Extends}
use test_frame.Program.Ready.{main-unrefused}
use test_frame.Program.Complete.{main-idle-exact}
use test_frame.Frame.Runs.{alone-IsIdle, none_from_finished}
use test_frame.Program.Whole.{main-requests-le, main-requests-exact}

abbrev pub disk : Files
disk = record { is_file_exist = λ name. true; load_to_str = λ name. [] }

abbrev pub stamp : Bytes
stamp = codes "[now][1]"

abbrev pub tc : TestCaseIot
tc = case_of single

-- The log, with the line that `main` writes.
abbrev pub opened : LogFile
unfolding put_text to_str decimal decimal_loop
opened = record { handle = some 3; written = put_text (stamp ++ to_str single) }

pub started :
    main single_json disk 0 (some 3) stamp 3 (codes "test.json") (pos 9)
    ≡ runs single (set_up 0 single) (case_of single) opened
unfolding main init with_config get_config find run_case open_log log init_log put_text to_str
    decimal decimal_loop
started = ap (with_config single_json disk 0 (some 3) stamp (pos 9)) single_parsed

-- "ok" and a newline.
abbrev pub net : Network
net = record {
  socket = pos 7;
  rand = 5;
  connect = λ fd a. pos 0;
  send = λ fd buf. pos (length buf);
  recvs = received (111 ∷ 107 ∷ 10 ∷ []) ∷ [];
}

abbrev pub at_0 : Timeval
at_0 = record { tv_sec = 10; tv_usec = 0 }

pub case_is_set : ◌≢◌ {A = Option ℕ} (some 0) none
case_is_set e = cc

infixl 2 ◌▸◌
abbrev pub ◌▸◌ :
    {tc : TestCaseIot} {f : TestFrame} {l : LogFile} {acts : List Act} {a : Act} {p q : Process}
    → Ran tc f l acts p
    → Turn tc (threads f) p a q
    → Ran tc f l (a ∷ acts) q
r ▸ t = and_then r t

pub record Run (tc : TestCaseIot) (f : TestFrame) (l : LogFile) : Type 0 where
  pub acts : List Act
  pub last : Process
  pub open last use *
  pub ran : Ran tc f l acts last

-- The thread is ready for the start.
abbrev ready_run : Run (case_of single) (set_up 0 single) opened
unfolding set_up int_pred pre_execute
ready_run = record {
  acts = _;
  last = _;
  ran =
      called
      ▸ Turn.main (Drive.has_case case_is_set refl)
      ▸ Turn.main (Drive.create 0 refl (omega arith))
      ▸ Turn.main (Drive.created refl)
      ▸ Turn.init 0 (omega arith) refl refl
      ▸ Turn.work 0 (omega arith) refl refl (Move.enter refl)
      ▸ Turn.prepare 0 net stamp (omega arith) refl refl refl;
}

-- It has taken the only turn.
abbrev pub executing_run : Run (case_of single) (set_up 0 single) opened
unfolding set_up int_pred pre_execute
executing_run = record {
  acts = _;
  last = _;
  ran =
      ready_run.ran
      ▸ Turn.main (Drive.open_free refl refl)
      ▸ Turn.main (Drive.start 100 refl)
      ▸ Turn.work 0 (omega arith) refl refl (Move.pass refl refl)
      ▸ Turn.work 0 (omega arith) refl refl (Move.unmetered refl)
      ▸ Turn.work 0 (omega arith) refl refl (Move.count refl refl);
}

-- It sends its request, and then finds no turn left.
abbrev whole_run : Run (case_of single) (set_up 0 single) opened
unfolding set_up int_pred pre_execute execute judge log put_text tcp_iot connect_server connect_to
    talk finish receive_line fill c_string get_server init_case add_servers opened
whole_run = record {
  acts = _;
  last = _;
  ran =
      executing_run.ran
      ▸ Turn.test 0 net stamp at_0 at_0 (omega arith) refl refl refl
      ▸ Turn.work 0 (omega arith) refl refl Move.settle
      ▸ Turn.work 0 (omega arith) refl refl (Move.unmetered refl)
      ▸ Turn.work 0 (omega arith) refl refl (Move.quit refl refl);
}

nothing_under_way : total turns 1 whole_run.pc ≡ 0
unfolding set_up int_pred pre_execute execute judge log put_text tcp_iot connect_server connect_to
    talk finish receive_line fill c_string get_server init_case add_servers opened
nothing_under_way = total-eq-zero turns 1 whole_run.pc (λ i. ground arith)

nothing_unsettled : total unsettled 1 whole_run.pc ≡ 0
unfolding set_up int_pred pre_execute execute judge log put_text tcp_iot connect_server connect_to
    talk finish receive_line fill c_string get_server init_case add_servers opened
nothing_unsettled = total-eq-zero unsettled 1 whole_run.pc (λ i. ground arith)

main-requests-exact_example :
    (passed (codes "ok") whole_run.acts + missed (codes "ok") whole_run.acts ≡ 1)
    × ((report whole_run.statistic).success ≡ pos (passed (codes "ok") whole_run.acts))
    × ((report whole_run.statistic).failure ≡ pos (missed (codes "ok") whole_run.acts))
unfolding set_up int_pred pre_execute execute judge log put_text tcp_iot connect_server connect_to
    talk finish receive_line fill c_string get_server init_case add_servers opened
main-requests-exact_example =
    main-requests-exact single_json disk 0 (some 3) stamp 3 (codes "test.json") (pos 9) single
      (set_up 0 single) (case_of single) opened started (omega arith) (omega arith) (omega arith)
      whole_run.ran (omega arith) 0 (omega arith) refl nothing_under_way

main-idle-exact_example :
    (passed (codes "ok") whole_run.acts + missed (codes "ok") whole_run.acts ≡ 1)
    × ((report whole_run.statistic).success ≡ pos (passed (codes "ok") whole_run.acts))
    × ((report whole_run.statistic).failure ≡ pos (missed (codes "ok") whole_run.acts))
unfolding set_up int_pred pre_execute execute judge log put_text tcp_iot connect_server connect_to
    talk finish receive_line fill c_string get_server init_case add_servers opened
main-idle-exact_example =
    main-idle-exact single_json disk 0 (some 3) stamp 3 (codes "test.json") (pos 9) single
      (set_up 0 single) (case_of single) opened 0 started refl (omega arith) (omega arith)
      (omega arith) whole_run.ran (omega arith) refl refl
      (alone-IsIdle whole_run.last.sys finished refl (λ l m q mv. none_from_finished l mv))
      (omega arith) refl

main-requests-le_example :
    passed (codes "ok") whole_run.acts + missed (codes "ok") whole_run.acts ≤ 1
unfolding set_up int_pred pre_execute execute judge log put_text tcp_iot connect_server connect_to
    talk finish receive_line fill c_string get_server init_case add_servers opened
main-requests-le_example =
    main-requests-le single_json disk 0 (some 3) stamp 3 (codes "test.json") (pos 9) single
      (set_up 0 single) (case_of single) opened started (omega arith) (omega arith) (omega arith)
      whole_run.ran (omega arith)

report-answers_example :
    ((report whole_run.statistic).success ≡ pos (passed (codes "ok") whole_run.acts))
    × ((report whole_run.statistic).failure ≡ pos (missed (codes "ok") whole_run.acts))
unfolding set_up int_pred pre_execute execute judge log put_text tcp_iot connect_server connect_to
    talk finish receive_line fill c_string get_server init_case add_servers opened
report-answers_example = report-answers whole_run.ran (omega arith) nothing_unsettled

-- The request was answered, and the answer holds the text.
one_passed : passed (codes "ok") whole_run.acts ≡ 1
unfolding set_up int_pred pre_execute execute judge log put_text tcp_iot connect_server connect_to
    talk finish receive_line fill c_string get_server init_case add_servers opened
one_passed = refl

whole_run_reaches : Reach (set_up 0 single) (map label_of whole_run.acts) whole_run.sys
unfolding set_up int_pred pre_execute execute judge log put_text tcp_iot connect_server connect_to
    talk finish receive_line fill c_string get_server init_case add_servers opened
whole_run_reaches = Ran-Reach whole_run.ran

Ran-Extends_example : Extends opened whole_run.log_file (lines tc whole_run.acts)
unfolding set_up int_pred pre_execute execute judge log put_text tcp_iot connect_server connect_to
    talk finish receive_line fill c_string get_server init_case add_servers opened
Ran-Extends_example = Ran-Extends whole_run.ran

one_line : lines tc whole_run.acts ≡ stamp ++ 111 ∷ 107 ∷ 10 ∷ []
unfolding set_up int_pred pre_execute execute judge log put_text tcp_iot connect_server connect_to
    talk finish receive_line fill c_string get_server init_case add_servers opened
one_line = refl

ready_run_served :
    ((map given tc.ip_port ≡ []) × (get_server (ready_run.client 0) 5 ≡ none))
    ⊎ ((a : Address) × (get_server (ready_run.client 0) 5 ≡ some a)
        × IsServer a (map given tc.ip_port))
unfolding set_up int_pred pre_execute
ready_run_served = get_server-given 0 5 ready_run.ran refl

whole_run_unrefused : whole_run.pc 0 ≢ refused
unfolding set_up int_pred pre_execute execute judge log put_text tcp_iot connect_server connect_to
    talk finish receive_line fill c_string get_server init_case add_servers opened
whole_run_unrefused =
    main-unrefused single_json disk 0 (some 3) stamp 3 (codes "test.json") (pos 9) single
      (set_up 0 single) (case_of single) opened 0 started whole_run.ran
