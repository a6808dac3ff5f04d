-- ===== src/Program/Handles.antt =====
-- testexample.cpp: the handle of the log in a run that `main` has started.
use test_frame.Prelude.{
  ℕ, ◌<◌, ◌≡◌, ◌⊎◌, refl, ap, ◌∙◌, inl, inr, true, Bool-cases, ◌==◌, ◌&&◌, Option, none, some,
  Option-cases, ℤ, negsuc, pos_part, neg_part, List, [], ◌++◌, Bytes, is_empty,
}
use test_frame.Frame.{TestFrame}
use test_frame.Frame.Worker.{executing}
use test_frame.Frame.System.{is_running, threads}
use test_frame.Synch.{Timeval}
use test_frame.Client.{Network, returns, tcp_iot}
use test_frame.Config.{CmdInfo, Json, Files}
use test_frame.TestCase.{
  LogFile, new_log_file, init_log, TestCaseIot, ended, log, put_text, verdict, judge, execute,
}
use test_frame.TestCase.Results.{log-opened}
use test_frame.Main.{runs, main, open_log, to_str}
use test_frame.Main.Start.{main-IsRun}
use test_frame.Program.{Process, Act, tested, Turn, test, Ran}
use test_frame.Program.Log.{log-Extends, Ran-Extends}

-- A log that can be written to, where one is named.
abbrev pub IsUsable : Bytes → LogFile → Type 0
IsUsable name l = (is_empty name ≡ true) ⊎ ((file : ℕ) × (l.handle ≡ some file))

log-usable :
    (stamp text : Bytes) (l l' : LogFile)
    → log stamp text l ≡ some l'
    → (file : ℕ) × (l'.handle ≡ some file)
unfolding log
log-usable stamp text l l' h = elim (Option-cases l.handle) [
  | inl e ↦ let never : none ≡ some l' = rw (log, e) at h in absurd (cc)
  | inr (file, e) ↦ (file, (log-Extends stamp text l l' h).same_handle ∙ e)
]

open_log-IsUsable :
    (i : CmdInfo) (file : Option ℕ) (stamp : Bytes) (l : LogFile)
    → open_log i file stamp ≡ some l
    → IsUsable i.log_file l
unfolding open_log
open_log-IsUsable i file stamp l h = elim (Bool-cases (is_empty i.log_file)) [
  | inl unnamed ↦ inl unnamed
  | inr named ↦
      inr (log-usable stamp (to_str i) (init_log file new_log_file).0 l (rw (open_log, named) at h))
]

judge-ended :
    (tc : TestCaseIot) (assert stamp : Bytes) (l : LogFile) (code : ℤ) (rsp : Bytes)
    → IsUsable tc.log_file l
    → (rc : ℤ) × (l' : LogFile) × (judge tc assert stamp l (returns code rsp) ≡ ended rc l')
unfolding judge
judge-ended tc assert stamp l code rsp usable =
    elim (Bool-cases (pos_part code == 0 && neg_part code == 0)) [
      | inr e ↦ (negsuc 0, l, rw (judge, e) refl)
      | inl e ↦ elim (Bool-cases (is_empty tc.log_file)) [
        | inl unnamed ↦ (verdict assert rsp, l, rw (judge, e, unnamed) refl)
        | inr named ↦ elim usable [
          | inl unnamed ↦ absurd (cc)
          | inr (file, opened) ↦ (
            verdict assert rsp,
            record l { written = l.written ++ put_text (stamp ++ rsp) },
            rw (judge, e, named, log-opened stamp rsp l file opened) refl,
          )
        ]
      ]
    ]

-- A test case is never stuck on its log: where `main` comes to run the frame, in all runs, whatever the
-- network answered before, a thread inside the test case, while the process runs, goes on from every call
-- of `tcp_iot` that returns: it does not write through a handle that is null.
pub main-goes_on :
    (j : Json) (files : Files) (pointer : ℕ) (file : Option ℕ) (first : Bytes) (argc : ℕ)
    (filename : Bytes) (cmd : ℤ) (info : CmdInfo) (frame : TestFrame) (tc : TestCaseIot)
    (l : LogFile) {acts : List Act} {p : Process} (i : ℕ) (net : Network) (stamp : Bytes)
    (begin end : Timeval) (code : ℤ) (rsp : Bytes)
    → main j files pointer file first argc filename cmd ≡ runs info frame tc l
    → Ran tc frame l acts p
    → i < threads frame
    → is_running p.control ≡ true
    → p.pc i ≡ executing
    → (tcp_iot (p.client i) net tc.req []).1 ≡ returns code rsp
    → (q : Process) × Turn tc (threads frame) p (tested stamp (returns code rsp)) q
unfolding execute
main-goes_on j files pointer file first argc filename cmd info frame tc l {p = p} i net stamp begin
      end code rsp h r lt on e answer =
    let run = (main-IsRun j files pointer file first argc filename cmd info frame tc l h).2 in
    let same_name : tc.log_file ≡ info.log_file = ap (λ (t : TestCaseIot). t.log_file) run.tested in
    let usable : IsUsable tc.log_file p.log_file =
      rw (same_name, (Ran-Extends r).same_handle)
        (open_log-IsUsable info file first l run.opened) in
    let (rc, l', ends) = judge-ended tc tc.assert stamp p.log_file code rsp usable in
    let done : execute tc net stamp (p.client i) p.log_file
        ≡ ((tcp_iot (p.client i) net tc.req []).0, ended rc l') =
      rw (execute, answer, ends) refl in
    let step : Turn tc (threads frame) p (tested stamp (tcp_iot (p.client i) net tc.req []).1) _ =
      test i net stamp begin end lt on e done in
    (_, rw answer at step)
