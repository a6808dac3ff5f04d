-- ===== src/Frame/Exit.antt =====
-- testframe.cpp, TestFrame::Run: a run with a duration can always be brought to its end.
use test_frame.Prelude.{
  ℕ, suc, ◌+◌, ◌≤◌, ◌≡◌, refl, ◌∙◌, inl, inr, true, false, Bool-cases, ltb, List, arith, is_pos,
  pos_part,
}
use test_frame.Statistic.{report}
use test_frame.Frame.{TestFrame, is_over}
use test_frame.Frame.Worker.{Label}
use test_frame.Frame.System.{
  Control, polling, printing, resetting, deciding, refilling, exited, System, poll, print,
  print_nothing, reset, exit, keep, acquire, refill, Step, drive, is_running, Reach, next, threads,
}
use test_frame.Frame.Threads.{own-Settings, Reach-Settings}
use test_frame.Frame.Lock.{is_closed}
use test_frame.Frame.Start.{Way, stay, go}
use test_frame.Frame.Progress.{has_lock, holder-Frees, Alone-Way, Alone-others}
use test_frame.Frame.Duration.{Way-Settings}

-- From `s` the process can come to `exit(0)`.
abbrev pub Exits : ℕ → System → Type 0
Exits n s = (ls : List Label) × (t : System) × Way n s ls t × (t.control ≡ exited)

then_time_is_over :
    (f : TestFrame) (begin now : ℕ)
    → is_pos f.duration_time ≡ true
    → begin + pos_part f.duration_time ≤ now
    → is_over f begin now ≡ true
then_time_is_over f begin now timed le = ground arith

module _ {n : ℕ} {start : System} (timed : is_pos start.duration_time ≡ true) where
  still_timed : {ls : List Label} {s : System} → Way n start ls s → is_pos s.duration_time ≡ true
  still_timed w =
      let v = Way-Settings {f = start.frame} w (own-Settings start.mem) in rw v.same_duration timed

  -- The clock is read once more when the time is over.
  polling-Exits :
      {ls : List Label} {s : System} (begin last : ℕ)
      → Way n start ls s
      → s.control ≡ polling begin last
      → Exits n start
  polling-Exits {s = s} begin last w e =
      let now = last + 1 + begin + pos_part s.duration_time in
      let over = then_time_is_over s.frame begin now (still_timed w) (omega arith) in
      let polled = go w (drive (poll begin last now e (omega arith))) in
      let printed =
        go polled (drive (print begin now (report s.statistic) refl (omega arith) refl)) in
      (
        _,
        _,
        go (go printed (drive (reset begin now refl))) (drive (exit begin now refl over)),
        refl,
      )

  -- With the lock free, or not needed.
  deciding-Exits :
      {ls : List Label} {s : System} (begin now : ℕ)
      → Way n start ls s
      → s.control ≡ deciding begin now
      → s.held ≡ false
      → Exits n start
  deciding-Exits {s = s} begin now w e free = elim (Bool-cases (is_over s.frame begin now)) [
    | inl over ↦ (_, _, go w (drive (exit begin now e over)), refl)
    | inr more ↦ elim (Bool-cases (is_pos s.frequence_const)) [
      | inr unmetered ↦
          polling-Exits begin now (go w (drive (keep begin now e more unmetered))) refl
      | inl metered ↦
          let locked = go w (drive (acquire begin now e more metered free)) in
          polling-Exits begin now (go locked (drive (refill begin now refl))) refl
    ]
  ]

-- The lock, where it is taken, is given back first.
decided-Exits :
    {f : TestFrame} {ls : List Label} {s : System} (begin now : ℕ)
    → Reach f ls s
    → is_pos s.duration_time ≡ true
    → s.control ≡ deciding begin now
    → Exits (threads f) s
decided-Exits {s = s} begin now r timed e = elim (Bool-cases s.held) [
  | inr free ↦ deciding-Exits timed begin now stay e free
  | inl held ↦ elim (has_lock r held) [
    | inl (b, x, by_main) ↦ absurd (cc)
    | inr (j, lt, w) ↦
        let (k, t, alone, few, free) = holder-Frees j (s.pc j) s refl w in
        let (later, way) = Alone-Way j lt (rw e refl) stay alone in
        let same = (Alone-others (suc j) j (λ h. omega arith) alone).1 in
        deciding-Exits timed begin now way (same ∙ e) free
  ]
]

Way-after :
    {n : ℕ} {s t : System} {l : Label} (first : Step n s l t) {u : System} {ls : List Label}
    → Way n t ls u
    → (later : List Label) × Way n s later u
Way-after first stay = (_, go stay first)
Way-after first (go w st) = let (later, way) = Way-after first w in (_, go way st)

Exits-after : {n : ℕ} {s t : System} {l : Label} → Step n s l t → Exits n t → Exits n s
Exits-after first (ls, u, w, e) = let (later, way) = Way-after first w in (later, u, way, e)

loop-Exits :
    {f : TestFrame} {ls : List Label} {s : System} (c : Control)
    → Reach f ls s
    → is_pos s.duration_time ≡ true
    → is_closed c ≡ false
    → is_running c ≡ true
    → s.control ≡ c
    → Exits (threads f) s
loop-Exits (polling b last) r timed started on e = polling-Exits timed b last stay e
loop-Exits (deciding b now) r timed started on e = decided-Exits b now r timed e
loop-Exits (resetting b now) r timed started on e =
    let st = drive (reset b now e) in Exits-after st (decided-Exits b now (next r st) timed refl)
loop-Exits (refilling b now) r timed started on e =
    polling-Exits timed b now (go stay (drive (refill b now e))) refl
loop-Exits {s = s} (printing b now) r timed started on e = elim (Bool-cases (ltb b now)) [
  | inl later ↦
      let st = drive (print b now (report s.statistic) e (ground arith) refl) in
      let st' = drive (reset b now refl) in
      Exits-after st (Exits-after st' (decided-Exits b now (next (next r st) st') timed refl))
  | inr not_later ↦
      let st = drive (print_nothing b now e (ground arith)) in
      Exits-after st (decided-Exits b now (next r st) timed refl)
]
loop-Exits c r timed started on e = absurd (cc)

-- A run with a duration can always be ended: from every state that can be reached once the threads have
-- been started, while the process runs, the program can go on so that it comes to `exit(0)`.
pub Reach-Exits :
    {f : TestFrame} {ls : List Label} {s : System}
    → Reach f ls s
    → is_pos f.duration_time ≡ true
    → is_closed s.control ≡ false
    → is_running s.control ≡ true
    → (later : List Label) × (t : System) × Way (threads f) s later t × (t.control ≡ exited)
Reach-Exits {s = s} r timed started on =
    loop-Exits s.control r (rw (Reach-Settings r).same_duration timed) started on refl
