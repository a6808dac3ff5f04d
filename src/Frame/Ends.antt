-- ===== src/Frame/Ends.antt =====
-- testframe.cpp, TestFrame::Run: the end of a run of which all has been sent.
use test_frame.Prelude.{ℕ, ◌+◌, ◌≡◌, inl, inr, refl, true, false, Bool-cases, ltb, List, arith}
use test_frame.Statistic.{report, reset_ps}
use test_frame.Frame.{TestFrame, all_sent, is_over}
use test_frame.Frame.Worker.{Label}
use test_frame.Frame.System.{
  Control, polling, printing, resetting, deciding, exited, System, poll, print, print_nothing,
  reset, exit, drive, is_running,
}
use test_frame.Frame.Lock.{is_closed, main_holds}
use test_frame.Frame.Start.{Way, stay, go}

-- From `s` the process can come to `exit(0)` with that many test cases counted.
abbrev pub Ends : ℕ → System → ℕ → Type 0
Ends n s count =
    (ls : List Label) × (t : System) × Way n s ls t
    × (t.control ≡ exited)
    × (t.statistic.total_count ≡ count)

sent-is_over : (f : TestFrame) (begin now : ℕ) → all_sent f ≡ true → is_over f begin now ≡ true
sent-is_over f begin now sent = ground arith

module _ {n : ℕ} {start : System} where
  deciding-Ends :
      {ls : List Label} {s : System} (begin now : ℕ)
      → Way n start ls s
      → all_sent s.frame ≡ true
      → s.control ≡ deciding begin now
      → Ends n start s.statistic.total_count
  deciding-Ends {s = s} begin now w sent e =
      (_, _, go w (drive (exit begin now e (sent-is_over s.frame begin now sent))), refl, refl)

  resetting-Ends :
      {ls : List Label} {s : System} (begin now : ℕ)
      → Way n start ls s
      → all_sent s.frame ≡ true
      → s.control ≡ resetting begin now
      → Ends n start s.statistic.total_count
  unfolding reset_ps
  resetting-Ends begin now w sent e =
      deciding-Ends begin now (go w (drive (reset begin now e))) sent refl

  printing-Ends :
      {ls : List Label} {s : System} (begin now : ℕ)
      → Way n start ls s
      → all_sent s.frame ≡ true
      → s.control ≡ printing begin now
      → Ends n start s.statistic.total_count
  printing-Ends {s = s} begin now w sent e = elim (Bool-cases (ltb begin now)) [
    | inl later ↦
        let st = drive (print begin now (report s.statistic) e (ground arith) refl) in
        resetting-Ends begin now (go w st) sent refl
    | inr not_later ↦
        deciding-Ends begin now (go w (drive (print_nothing begin now e (ground arith)))) sent refl
  ]

-- The main thread ends the run by itself.
pub sent-Ends :
    {n : ℕ} {s : System} (c : Control)
    → all_sent s.frame ≡ true
    → is_closed c ≡ false
    → is_running c ≡ true
    → main_holds c ≡ 0
    → s.control ≡ c
    → Ends n s s.statistic.total_count
sent-Ends (polling b last) sent shut on unheld e =
    printing-Ends b (last + 1) (go stay (drive (poll b last (last + 1) e (omega arith)))) sent refl
sent-Ends (printing b now) sent shut on unheld e = printing-Ends b now stay sent e
sent-Ends (resetting b now) sent shut on unheld e = resetting-Ends b now stay sent e
sent-Ends (deciding b now) sent shut on unheld e = deciding-Ends b now stay sent e
sent-Ends c sent shut on unheld e = absurd (cc)
