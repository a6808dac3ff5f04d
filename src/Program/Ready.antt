-- ===== src/Program/Ready.antt =====
-- testexample.cpp, `main`, with the threads that it has run: a configured test is never turned down.
use test_frame.Prelude.{
  ℕ, ◌≡◌, ◌≢◌, refl, ap, sym, ◌∙◌, inl, inr, Bool, true, false, Bool-cases, ◌==◌, Option, ℤ, pos,
  List, Bytes, arith,
}
use test_frame.Frame.{TestFrame}
use test_frame.Frame.Worker.{
  Shared, Pc, gated, called, refused, Label, Move, pre_execute, refuse, is_zero,
}
use test_frame.Frame.System.{System, Drive, create, start, refill}
use test_frame.Client.{Client}
use test_frame.Config.{CmdInfo, Json, Files}
use test_frame.TestCase.{LogFile, TestCaseIot, Tested, ended}
use test_frame.Main.{runs, main, case_of}
use test_frame.Main.Limits.{pre_execute-IsEntry}
use test_frame.Main.Start.{main-IsRun}
use test_frame.Config.Lookup.{IsEntry}
use test_frame.Program.{Process, Act, calls_case, Turn, init, prepare, test, Ran, and_then, work}

-- Whether the thread has not failed before the start.
abbrev pub is_welcome : Pc → Bool
is_welcome (gated rc) = is_zero rc
is_welcome (called rc) = is_zero rc
is_welcome refused = false
is_welcome _ = true

abbrev AllWelcome : Process → Type 0
AllWelcome p = (i : ℕ) → is_welcome (p.pc i) ≡ true

Drive-is_welcome :
    {n : ℕ} {s t : System} {l : Label} (i : ℕ)
    → Drive n s l t
    → is_welcome (s.pc i) ≡ true
    → is_welcome (t.pc i) ≡ true
Drive-is_welcome i (create k e lt) h = ground arith
Drive-is_welcome i (start now e) h = ground arith
Drive-is_welcome i (refill begin now e) h = ground arith
Drive-is_welcome i d h = h

Move-is_welcome :
    {m m' : Shared} {q q' : Pc} {l : Label}
    → Move m q l m' q'
    → calls_case q ≡ false
    → is_welcome q ≡ true
    → is_welcome q' ≡ true
Move-is_welcome (pre_execute rc) free h = absurd (cc)
Move-is_welcome (refuse unlocked z) free h = absurd (cc)
Move-is_welcome mv free h = ground arith

module _ (info : CmdInfo) (entry : IsEntry info) where
  Turn-AllWelcome :
      {n : ℕ} {p q : Process} {a : Act} → Turn (case_of info) n p a q → AllWelcome p → AllWelcome q
  Turn-AllWelcome (Turn.main d) ok j = Drive-is_welcome j d (ok j)
  Turn-AllWelcome {p = p} (work i {q = q} lt on free mv) ok j = elim (Bool-cases (i == j)) [
    | inl same ↦ rw same (Move-is_welcome mv free (ok i))
    | inr other ↦ rw other (ok j)
  ]
  Turn-AllWelcome (init i lt on e) ok j = elim (Bool-cases (i == j)) [
    | inl same ↦ rw same refl
    | inr other ↦ rw other (ok j)
  ]
  Turn-AllWelcome {p = p} (prepare i net stamp {rc = rc} lt on e r) ok j =
      let after = sym (pre_execute-IsEntry info net stamp (p.client i) p.log_file entry) ∙ r in
      let done : ended (pos 0) p.log_file ≡ ended rc _ = ap (λ (x : Client × Tested). x.1) after in
      let zero_rc : pos 0 ≡ rc = cc in
      elim (Bool-cases (i == j)) [
        | inl same ↦ rw (same, ← zero_rc) refl
        | inr other ↦ rw other (ok j)
      ]
  Turn-AllWelcome (test i net stamp begin end {rc = rc} lt on e r) ok j =
      elim (Bool-cases (i == j)) [ inl same ↦ rw same refl | inr other ↦ rw other (ok j) ]

  Ran-AllWelcome :
      {f : TestFrame} {l : LogFile} {acts : List Act} {p : Process}
      → Ran (case_of info) f l acts p
      → AllWelcome p
  Ran-AllWelcome Ran.called i = refl
  Ran-AllWelcome (and_then r t) i = Turn-AllWelcome t (Ran-AllWelcome r) i

-- A configured test is not turned down: where `main` comes to run the frame, whatever the file and the
-- arguments are, no run of the threads that it starts has a thread that returns because of a
-- `PreExecute` that failed.
pub main-unrefused :
    (j : Json) (files : Files) (pointer : ℕ) (file : Option ℕ) (stamp : Bytes) (argc : ℕ)
    (filename : Bytes) (cmd : ℤ) (info : CmdInfo) (frame : TestFrame) (tc : TestCaseIot)
    (l : LogFile) {acts : List Act} {p : Process} (i : ℕ)
    → main j files pointer file stamp argc filename cmd ≡ runs info frame tc l
    → Ran tc frame l acts p
    → p.pc i ≢ refused
main-unrefused j files pointer file stamp argc filename cmd info frame tc l {acts} {p} i h r e =
    let (enough, there, run) =
      main-IsRun j files pointer file stamp argc filename cmd info frame tc l h in
    let of_info : Ran (case_of info) frame l acts p = rw run.tested at r in
    let ok : is_welcome refused ≡ true = rw e at (Ran-AllWelcome info run.entry of_info i) in
    absurd (cc)
