-- ===== src/Program/Refines.antt =====
-- The program's run as a run of the frame: what the calls of the test case come to is one of the results
-- that Frame leaves open.
use test_frame.Prelude.{ℕ, ◌≡◌, refl, ap, false, suc, List, [], ◌∷◌, map, length}
use test_frame.Statistic.{update_delay}
use test_frame.Frame.{TestFrame, delay}
use test_frame.Frame.Worker.{Pc, Label, Move}
use test_frame.Frame.System.{Step, drive, run, Reach, here, next}
use test_frame.TestCase.{LogFile, TestCaseIot}
use test_frame.Program.{
  Process, Act, label_of, Turn, main, work, init, prepare, test, Ran, called, and_then,
}

pub Turn-Step :
    {tc : TestCaseIot} {n : ℕ} {p q : Process} {a : Act}
    → Turn tc n p a q
    → Step n p.sys (label_of a) q.sys
Turn-Step (main d) = drive d
Turn-Step (work i lt on free mv) = run i lt on mv
Turn-Step {p = p} (init i lt on e) =
    let mv : Move p.mem (p.pc i) Label.quiet p.mem Pc.entering = rw e Move.init in run i lt on mv
Turn-Step {p = p} (prepare i net stamp {rc = rc} lt on e h) =
    let mv : Move p.mem (p.pc i) Label.quiet (record p.mem { held = false }) (Pc.gated rc) =
      rw e (Move.pre_execute rc) in
    run i lt on mv
Turn-Step {p = p} (test i net stamp begin end {rc = rc} lt on e h) =
    let mv : Move p.mem (p.pc i) Label.quiet
        (record p.mem {
          statistic = update_delay p.mem.delay_threshold (delay begin end) p.mem.statistic;
        })
        (Pc.settling rc) =
      rw e (Move.execute rc begin end) in
    run i lt on mv

-- The frame's interleavings cover those of the program: whatever the network answers, every state that a
-- run of the threads with the test case comes to is, without the clients and the log, one that the frame
-- reaches by a run with the same labels, so that what holds of all runs of the frame holds of the program.
pub Ran-Reach :
    {tc : TestCaseIot} {f : TestFrame} {l : LogFile} {acts : List Act} {p : Process}
    → Ran tc f l acts p
    → Reach f (map label_of acts) p.sys
Ran-Reach called = here
Ran-Reach (and_then r t) = next (Ran-Reach r) (Turn-Step t)

pub length-labels : (acts : List Act) → length (map label_of acts) ≡ length acts
length-labels [] = refl
length-labels (a ∷ acts) = ap suc (length-labels acts)
