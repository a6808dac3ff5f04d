-- ===== src/Program.antt =====
-- testframe.cpp with the test case of testexample.cpp: the threads of TestFrameThread::RunX, each with a
-- client of its own, and the log that they share. The answers of the network are left open, and so is
-- the text in front of a line of the log. A call that hangs, reads outside of an array or writes through
-- a null handle has no step: what follows it is not described.
pub mod Refines
pub mod Counts
pub mod Clients
pub mod Log
pub mod Ready
pub mod Whole
pub mod Handles
pub mod Complete
mod Tests
mod Examples
mod Runs
use test_frame.Prelude.{
  ℕ, ◌<◌, ◌≡◌, if◌then◌else◌, Bool, true, false, Option, none, some, ℤ, List, [], ◌∷◌, is_empty,
  Bytes, update,
}
use test_frame.Synch.{Timeval}
use test_frame.Statistic.{update_delay}
use test_frame.Frame.{TestFrame, delay}
use test_frame.Frame.Worker.{
  Shared, Pc, born, entering, preparing, gated, executing, settling, Label, quiet, Move,
}
use test_frame.Frame.System.{System, Drive, is_running, initial, threads}
use test_frame.Client.{Client, new_client, Network, Outcome, tcp_iot}
use test_frame.TestCase.{LogFile, TestCaseIot, ended, init_case, execute, pre_execute}

pub record Process : Type 0 where
  pub sys : System
  pub open sys use *
  pub client : ℕ → Client
  pub log_file : LogFile

-- What an observer of the network sees of a step: what the request of `PreExecute` or of `Execute` came
-- to, with the text in front of its line in the log. There is no request where none is configured.
pub data Act : Type 0 where
  silent : Label → Act
  prepared : Bytes → Option Outcome → Act
  tested : Bytes → Outcome → Act

-- What the frame shows of the step.
abbrev pub label_of : Act → Label
label_of (silent l) = l
label_of (prepared stamp o) = quiet
label_of (tested stamp o) = quiet

-- What stands before a call of the test case.
abbrev pub calls_case : Pc → Bool
calls_case born = true
calls_case preparing = true
calls_case executing = true
calls_case _ = false

abbrev pub pre_asked : TestCaseIot → Network → Client → Option Outcome
pre_asked tc net c = if is_empty tc.pre_req then none else some (tcp_iot c net tc.pre_req []).1

pub data Turn (tc : TestCaseIot) (n : ℕ) (p : Process) : Act → Process → Type 0 where
  -- The main thread.
  main :
      {l : Label} {t : System} → Drive n p.sys l t → Turn tc n p (silent l) (record p { sys = t })
  -- A thread, apart from its calls of the test case.
  work :
      (i : ℕ) {l : Label} {m : Shared} {q : Pc}
      → i < n
      → is_running p.control ≡ true
      → calls_case (p.pc i) ≡ false
      → Move p.mem (p.pc i) l m q
      → Turn tc n p (silent l) (record p { sys = record p.sys { mem = m; pc = update p.pc i q } })
  -- `Client client;` and `Init`
  init :
      (i : ℕ)
      → i < n
      → is_running p.control ≡ true
      → p.pc i ≡ born
      → Turn tc n p (silent quiet) (record p {
        sys = record p.sys { pc = update p.pc i entering };
        client = update p.client i (init_case tc new_client);
      })
  -- `PreExecute`
  prepare :
      (i : ℕ) (net : Network) (stamp : Bytes) {rc : ℤ} {c : Client} {l : LogFile}
      → i < n
      → is_running p.control ≡ true
      → p.pc i ≡ preparing
      → pre_execute tc net stamp (p.client i) p.log_file ≡ (c, ended rc l)
      → Turn tc n p (prepared stamp (pre_asked tc net (p.client i))) (record p {
        sys = record p.sys { mem = record p.mem { held = false }; pc = update p.pc i (gated rc) };
        client = update p.client i c;
        log_file = l;
      })
  -- `Execute`, up to the recording of the delay.
  test :
      (i : ℕ) (net : Network) (stamp : Bytes) (begin end : Timeval) {rc : ℤ} {c : Client}
      {l : LogFile}
      → i < n
      → is_running p.control ≡ true
      → p.pc i ≡ executing
      → execute tc net stamp (p.client i) p.log_file ≡ (c, ended rc l)
      → Turn tc n p (tested stamp (tcp_iot (p.client i) net tc.req []).1) (record p {
        sys = record p.sys {
          mem = record p.mem {
            statistic = update_delay p.mem.delay_threshold (delay begin end) p.mem.statistic;
          };
          pc = update p.pc i (settling rc);
        };
        client = update p.client i c;
        log_file = l;
      })

-- The call of `Run`, with the log as `main` has left it.
abbrev pub start : TestFrame → LogFile → Process
start f l = record { sys = initial f; client = λ _. new_client; log_file = l }

-- What can be reached, with the acts of the way, the last one first.
pub data Ran (tc : TestCaseIot) (f : TestFrame) (l : LogFile) : List Act → Process → Type 0 where
  called : Ran tc f l [] (start f l)
  and_then :
      {acts : List Act} {a : Act} {p q : Process}
      → Ran tc f l acts p
      → Turn tc (threads f) p a q
      → Ran tc f l (a ∷ acts) q
