-- ===== src/Frame/System.antt =====
-- testframe.cpp, TestFrame::Run: the main thread, and the `cThreadNum` threads that it creates,
-- interleaved in any order. The readings of the clock are left open.
use test_frame.Prelude.{
  ℕ, suc, ◌+◌, ◌≤◌, ◌<◌, ◌≡◌, ◌≢◌, Bool, true, false, List, [], ◌∷◌, pos_part, is_pos, update, none,
}
use test_frame.Synch.{assign}
use test_frame.Statistic.{new_statistic, reset_ps, Report, report}
use test_frame.Frame.{TestFrame, is_over}
use test_frame.Frame.Worker.{
  Shared, Pc, unborn, born, gated, called, starved, resumed, Label, quiet, refilled, Move,
}

-- Where the main thread stands in `Run`, with the live ones of `t`, `begin`, `lasttime` and `now`.
pub data Control : Type 0 where
  calling : Control  -- the call of `Run`
  creating : ℕ → Control
  sleeping : Control  -- `sleep(1)`
  opening : Control  -- before the first `Broadcast`
  polling : ℕ → ℕ → Control  -- the head of the loop
  printing : ℕ → ℕ → Control  -- a second has passed
  resetting : ℕ → ℕ → Control  -- in `Output`, after the report
  deciding : ℕ → ℕ → Control  -- before the tests for the end
  refilling : ℕ → ℕ → Control  -- with `cLock`
  returned : Control  -- `return -1`
  aborted : Control  -- `exit(-1)`
  exited : Control  -- `exit(0)`

-- Whether the process still runs threads.
abbrev pub is_running : Control → Bool
is_running returned = false
is_running aborted = false
is_running exited = false
is_running _ = true

-- An index from the number of threads on names no thread.
pub record System : Type 0 where
  pub mem : Shared
  pub open mem use *
  pub control : Control
  pub pc : ℕ → Pc

-- `cCond.Broadcast()` wakes the threads that wait at the time.
abbrev pub wake : Pc → Pc
wake (gated rc) = called rc
wake starved = resumed
wake p = p

abbrev pub set_frequence_now : Shared → Shared
set_frequence_now m = record m {
  frame = record m.frame { frequence = assign m.frequence m.frequence_const };
}

-- The steps of the main thread.
pub data Drive (n : ℕ) (s : System) : Label → System → Type 0 where
  no_case :
      s.test_case ≡ none → s.control ≡ calling → Drive n s quiet (record s { control = returned })
  has_case :
      s.test_case ≢ none → s.control ≡ calling → Drive n s quiet (record s { control = creating 0 })
  create :
      (t : ℕ)
      → s.control ≡ creating t
      → t < n
      → Drive n s quiet (record s { control = creating (suc t); pc = update s.pc t born })
  create_fails :
      (t : ℕ) → s.control ≡ creating t → t < n → Drive n s quiet (record s { control = aborted })
  created : s.control ≡ creating n → Drive n s quiet (record s { control = sleeping })
  open_budget :
      s.control ≡ sleeping
      → is_pos s.frequence_const ≡ true
      → Drive n s refilled (record s { control = opening; mem = set_frequence_now s.mem })
  open_free :
      s.control ≡ sleeping
      → is_pos s.frequence_const ≡ false
      → Drive n s quiet (record s { control = opening })
  start :
      (now : ℕ)
      → s.control ≡ opening
      → Drive n s quiet (record s { control = polling now now; pc = λ i. wake (s.pc i) })
  poll :
      (begin last now : ℕ)
      → s.control ≡ polling begin last
      → last + 1 ≤ now
      → Drive n s quiet (record s { control = printing begin now })
  print :
      (begin now : ℕ) (r : Report)
      → s.control ≡ printing begin now
      → begin < now
      → r ≡ report s.statistic
      → Drive n s quiet (record s { control = resetting begin now })
  print_nothing :
      (begin now : ℕ)
      → s.control ≡ printing begin now
      → now ≤ begin
      → Drive n s quiet (record s { control = deciding begin now })
  reset :
      (begin now : ℕ)
      → s.control ≡ resetting begin now
      → Drive n s quiet (record s {
        control = deciding begin now;
        mem = record s.mem { statistic = reset_ps s.statistic };
      })
  exit :
      (begin now : ℕ)
      → s.control ≡ deciding begin now
      → is_over s.frame begin now ≡ true
      → Drive n s quiet (record s { control = exited })
  keep :
      (begin now : ℕ)
      → s.control ≡ deciding begin now
      → is_over s.frame begin now ≡ false
      → is_pos s.frequence_const ≡ false
      → Drive n s quiet (record s { control = polling begin now })
  acquire :
      (begin now : ℕ)
      → s.control ≡ deciding begin now
      → is_over s.frame begin now ≡ false
      → is_pos s.frequence_const ≡ true
      → s.held ≡ false
      → Drive n s quiet
          (record s { control = refilling begin now; mem = record s.mem { held = true } })
  -- The new budget, the broadcast and `Unlock`, under the lock.
  refill :
      (begin now : ℕ)
      → s.control ≡ refilling begin now
      → Drive n s refilled (record s {
        control = polling begin now;
        mem = record (set_frequence_now s.mem) { held = false };
        pc = λ i. wake (s.pc i);
      })

pub data Step (n : ℕ) (s : System) : Label → System → Type 0 where
  drive : {l : Label} {t : System} → Drive n s l t → Step n s l t
  run :
      (i : ℕ) {l : Label} {m : Shared} {p : Pc}
      → i < n
      → is_running s.control ≡ true
      → Move s.mem (s.pc i) l m p
      → Step n s l (record s { mem = m; pc = update s.pc i p })

-- `Run`, called on the frame.
abbrev pub initial : TestFrame → System
initial f = record {
  mem = record { frame = f; statistic = new_statistic; held = false };
  control = calling;
  pc = λ _. unborn;
}

abbrev pub threads : TestFrame → ℕ
threads f = pos_part f.thread_num

-- What can be reached from the call of `Run`, with the labels of the way, the last one first.
pub data Reach (f : TestFrame) : List Label → System → Type 0 where
  here : Reach f [] (initial f)
  next :
      {ls : List Label} {l : Label} {s t : System}
      → Reach f ls s
      → Step (threads f) s l t
      → Reach f (l ∷ ls) t
