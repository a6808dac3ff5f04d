-- ===== src/Main/Tests.antt =====
-- Runs of testexample.cpp, `main`: a test of one thread, one request and one packet in a second.
use test_frame.Prelude.{
  ℕ, ◌+◌, ◌%◌, ◌^◌, ◌≤◌, ◌≡◌, ◌≢◌, refl, none, some, Option, List, ◌∷◌, arith, pos, total, int_pred,
  codes,
}
use test_frame.Synch.{Timeval}
use test_frame.Frame.{TestFrame}
use test_frame.Frame.Worker.{Label, Move}
use test_frame.Frame.System.{System, Drive, Step, drive, run, Reach, here, next, threads}
use test_frame.Frame.Quota.{turns}
use test_frame.Frame.Rate.{grants}
use test_frame.Config.{CmdInfo, new_cmd_info}
use test_frame.Main.{set_up}
use test_frame.Text.{decimal, decimal_loop}
use test_frame.Text.Decimal.{strto_ushort-decimal}
use test_frame.Config.Split.{strto_ushort}
use test_frame.Main.Limits.{times_limit-kept, frequence-kept}

abbrev info : CmdInfo
info = record new_cmd_info {
  cmd = 7;
  req = codes "{}";
  thread_num = 1;
  load_test_time = 60;
  times_limit = 1;
  frequence = 1;
}

abbrev frame : TestFrame
unfolding set_up
frame = set_up 0 info

abbrev at_0 : Timeval
at_0 = record { tv_sec = 10; tv_usec = 0 }

case_is_set : ◌≢◌ {A = Option ℕ} (some 0) none
case_is_set e = cc

infixl 2 ◌▸◌
abbrev ◌▸◌ :
    {f : TestFrame} {ls : List Label} {l : Label} {s t : System}
    → Reach f ls s
    → Step (threads f) s l t
    → Reach f (l ∷ ls) t
r ▸ st = next r st

record Run : Type 0 where
  labels : List Label
  last : System
  open last use *
  reach : Reach (set_up 0 info) labels last

-- The thread gets its packet and sends the only request.
abbrev one_request : Run
unfolding set_up int_pred
one_request = record {
  labels = _;
  last = _;
  reach =
      here
      ▸ drive (Drive.has_case case_is_set refl)
      ▸ drive (Drive.create 0 refl (omega arith))
      ▸ drive (Drive.created refl)
      ▸ run 0 (omega arith) refl Move.init
      ▸ run 0 (omega arith) refl (Move.enter refl)
      ▸ run 0 (omega arith) refl (Move.pre_execute (pos 0))
      ▸ drive (Drive.open_budget refl refl)
      ▸ drive (Drive.start 100 refl)
      ▸ run 0 (omega arith) refl (Move.pass refl refl)
      ▸ run 0 (omega arith) refl (Move.meter refl refl)
      ▸ run 0 (omega arith) refl (Move.go_on refl)
      ▸ run 0 (omega arith) refl Move.take_one
      ▸ run 0 (omega arith) refl (Move.grant refl)
      ▸ run 0 (omega arith) refl (Move.count refl refl)
      ▸ run 0 (omega arith) refl (Move.execute (pos 0) at_0 at_0);
}

one_request_counted :
    one_request.statistic.total_count + total turns (threads (set_up 0 info)) one_request.pc ≤ 1
one_request_counted =
    times_limit-kept 0 info (omega arith) (omega arith) (omega arith) one_request.reach

one_packet_granted : grants one_request.labels ≤ 1
unfolding set_up int_pred
one_packet_granted =
    frequence-kept 0 info (omega arith) (omega arith) (omega arith) one_request.reach tt

port_wraps : strto_ushort (decimal 70000) ≡ 70000 % 2 ^ 16
port_wraps = strto_ushort-decimal 70000 (omega arith)

port_printed : decimal 3000 ≡ codes "3000"
unfolding decimal decimal_loop
port_printed = refl
