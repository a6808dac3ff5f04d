-- ===== src/Frame/Duration.antt =====
-- testframe.cpp, TestFrame::Run: the duration of the run (`cDurationTime`), which is counted from the
-- clock's reading at the start.
use test_frame.Prelude.{ℕ, ◌+◌, ◌≤◌, ◌<◌, ◌≡◌, refl, ap, true, false, List, arith, is_pos, pos_part}
use test_frame.Frame.{TestFrame, is_over}
use test_frame.Frame.Worker.{Label}
use test_frame.Frame.System.{
  Control, no_case, has_case, create_fails, created, open_budget, open_free, start, polling,
  printing, resetting, deciding, refilling, exited, System, Drive, create, poll, print,
  print_nothing, reset, exit, keep, acquire, refill, Step, drive, run,
}
use test_frame.Frame.Threads.{Settings, own-Settings, Step-Settings}
use test_frame.Frame.Start.{Way, stay, go}

-- The loop was entered at the time `begin`, and the clock has been read later since.
abbrev pub IsSince : ℕ → Control → Type 0
IsSince begin (polling b last) = (b ≡ begin) × (begin ≤ last)
IsSince begin (printing b now) = (b ≡ begin) × (begin < now)
IsSince begin (resetting b now) = (b ≡ begin) × (begin < now)
IsSince begin (deciding b now) = (b ≡ begin) × (begin < now)
IsSince begin (refilling b now) = (b ≡ begin) × (begin < now)
IsSince begin exited = Unit
IsSince begin c = ⊥

Drive-IsSince :
    (begin : ℕ) {n : ℕ} {s t : System} {l : Label}
    → Drive n s l t
    → IsSince begin s.control
    → IsSince begin t.control
Drive-IsSince b (no_case a e) h = absurd (rw e at h)
Drive-IsSince b (has_case a e) h = absurd (rw e at h)
Drive-IsSince b (create t e lt) h = absurd (rw e at h)
Drive-IsSince b (create_fails t e lt) h = absurd (rw e at h)
Drive-IsSince b (created e) h = absurd (rw e at h)
Drive-IsSince b (open_budget e a) h = absurd (rw e at h)
Drive-IsSince b (open_free e a) h = absurd (rw e at h)
Drive-IsSince b (start now e) h = absurd (rw e at h)
Drive-IsSince b (poll x last now e later) h =
    let (same, le) : IsSince b (polling x last) = rw e at h in (same, omega arith)
Drive-IsSince b (print x now r e a p) h = rw e at h
Drive-IsSince b (print_nothing x now e a) h = rw e at h
Drive-IsSince b (reset x now e) h = rw e at h
Drive-IsSince b (exit x now e a) h = tt
Drive-IsSince b (keep x now e a p) h =
    let (same, lt) : IsSince b (deciding x now) = rw e at h in (same, omega arith)
Drive-IsSince b (acquire x now e a p free) h = rw e at h
Drive-IsSince b (refill x now e) h =
    let (same, lt) : IsSince b (refilling x now) = rw e at h in (same, omega arith)

Step-IsSince :
    (begin : ℕ) {n : ℕ} {s t : System} {l : Label}
    → Step n s l t
    → IsSince begin s.control
    → IsSince begin t.control
Step-IsSince b (drive d) h = Drive-IsSince b d h
Step-IsSince b (run i lt on mv) h = h

Way-IsSince :
    (begin : ℕ) {n : ℕ} {s : System} {ls : List Label} {t : System}
    → Way n s ls t
    → IsSince begin s.control
    → IsSince begin t.control
Way-IsSince b stay h = h
Way-IsSince b (go w st) h = Step-IsSince b st (Way-IsSince b w h)

pub Way-Settings :
    {f : TestFrame} {n : ℕ} {s : System} {ls : List Label} {t : System}
    → Way n s ls t
    → Settings f s.mem
    → Settings f t.mem
Way-Settings stay v = v
Way-Settings (go w st) v = Step-Settings st (Way-Settings w v)

exit-decided :
    {n : ℕ} {s t : System} {l : Label}
    → Drive n s l t
    → t.control ≡ exited
    → (begin now : ℕ) × (s.control ≡ deciding begin now) × (is_over s.frame begin now ≡ true)
exit-decided (exit b now e over) x = (b, now, e, over)
exit-decided d x = absurd (cc)

time_over :
    (f : TestFrame) (begin now : ℕ)
    → is_over f begin now ≡ true
    → is_pos f.repeat_count_const ≡ false
    → begin + pos_part f.duration_time ≤ now
time_over f begin now over unlimited = ground arith

-- A run without a repeat count lasts as long as it was told to: however the threads interleave after the
-- start, at which the clock reads `begin`, the step in which the process exits follows a reading of the
-- clock that is at least `cDurationTime` seconds later.
pub exit-after_duration :
    {n : ℕ} {s t u : System} {ls : List Label} {l : Label} (begin : ℕ)
    → s.control ≡ polling begin begin
    → is_pos s.repeat_count_const ≡ false
    → Way n s ls t
    → Drive n t l u
    → u.control ≡ exited
    → (now : ℕ) × (t.control ≡ deciding begin now) × (begin + pos_part s.duration_time ≤ now)
exit-after_duration {s = s} {t = t} begin e unlimited w d x =
    let (b, now, at_end, over) = exit-decided d x in
    let started : IsSince begin s.control = rw e (refl, omega arith) in
    let since : IsSince begin (deciding b now) = rw at_end at (Way-IsSince begin w started) in
    let v = Way-Settings {f = s.frame} w (own-Settings s.mem) in
    let none_sent : is_pos t.repeat_count_const ≡ false = rw v.same_repeat unlimited in
    let lasts = time_over t.frame b now over none_sent in
    (now, rw since.0 at at_end, omega (arith, since.0, lasts, ap pos_part v.same_duration))
