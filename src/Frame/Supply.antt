-- ===== src/Frame/Supply.antt =====
-- testframe.cpp: the flow control supplies every thread. In a run without an end a thread that has been
-- started can get a packet from every state.
use test_frame.Prelude.{
  ℕ, ◌+◌, ◌<◌, ◌≡◌, ◌⊎◌, refl, inl, inr, Bool, true, false, Bool-cases, ltb, List, arith, pos,
  is_pos, is_neg, int_pred_parts, update, int_pred,
}
use test_frame.Synch.{value, decrement}
use test_frame.Statistic.{report}
use test_frame.Frame.{TestFrame, is_over}
use test_frame.Frame.Worker.{
  Shared, Pc, head, metering, starved, resumed, taking, checking, counting, Label, quiet, granted,
  Move,
}
use test_frame.Frame.System.{
  Control, polling, printing, resetting, deciding, refilling, System, poll, print, print_nothing,
  reset, acquire, refill, drive, run, is_running, wake,
}
use test_frame.Frame.Lock.{is_closed}
use test_frame.Frame.Start.{Way, go}
use test_frame.Frame.Progress.{update-same}
use test_frame.Frame.Quota.{IsSmall}

-- Thread `i` can get a packet.
abbrev pub Gets : ℕ → ℕ → System → Type 0
Gets n i s = (ls : List Label) × (t : System) × Way n s ls t × (t.pc i ≡ counting)

some_left : (limit : ℕ) → IsSmall limit → 0 < limit → is_neg (int_pred (pos limit)) ≡ false
some_left limit small some = ground (arith, int_pred_parts (pos limit))

-- Before the lock, or asleep until the next budget.
abbrev pub is_waiting : Pc → Bool
is_waiting head = true
is_waiting starved = true
is_waiting resumed = true
is_waiting p = false

woken : (p : Pc) → is_waiting p ≡ true → (wake p ≡ head) ⊎ (wake p ≡ resumed)
woken head e = inl refl
woken starved e = inr refl
woken resumed e = inr refl
woken p e = absurd (cc)

-- Nothing ends the run, and the flow control is on.
pub record IsEndless (limit : ℕ) (f : TestFrame) : Type 0 where
  pub no_count : is_pos f.repeat_count_const ≡ false
  pub no_duration : is_pos f.duration_time ≡ false
  pub metered : f.frequence_const ≡ pos limit

module _ {n : ℕ} {start : System} (i limit : ℕ) (lt : i < n) (small : IsSmall limit)
    (some : 0 < limit) where
  -- With the whole budget left.
  taking-Gets :
      {ls : List Label} {s : System}
      → Way n start ls s
      → is_running s.control ≡ true
      → s.pc i ≡ taking
      → s.frequence.ci_count ≡ pos limit
      → Gets n i start
  unfolding int_pred
  taking-Gets {s = s} w on e full =
      let m' : Shared = record s.mem {
        frame = record s.frame { frequence = (decrement s.frequence).0 };
      } in
      let take : Move s.mem (s.pc i) quiet m' checking = rw e Move.take_one in
      let left : is_neg (value m'.frequence) ≡ false = rw full (some_left limit small some) in
      let at_check : update s.pc i checking i ≡ checking = update-same s.pc i checking in
      let grant : Move m' (update s.pc i checking i) granted (record m' { held = false }) counting =
        rw at_check (Move.grant left) in
      (
        _,
        _,
        go (go w (run i lt on take)) (run i lt on grant),
        update-same (update s.pc i checking) i counting,
      )

  resumed-Gets :
      {ls : List Label} {s : System}
      → Way n start ls s
      → is_running s.control ≡ true
      → s.pc i ≡ resumed
      → s.held ≡ false
      → s.frequence.ci_count ≡ pos limit
      → Gets n i start
  resumed-Gets {s = s} w on e free full =
      let mv : Move s.mem (s.pc i) quiet (record s.mem { held = true }) taking =
        rw e (Move.resume free) in
      taking-Gets (go w (run i lt on mv)) on (update-same s.pc i taking) full

  head-Gets :
      {ls : List Label} {s : System}
      → Way n start ls s
      → is_running s.control ≡ true
      → s.pc i ≡ head
      → s.held ≡ false
      → s.frequence_const ≡ pos limit
      → s.frequence.ci_count ≡ pos limit
      → Gets n i start
  head-Gets {s = s} w on e free const full =
      let m' : Shared = record s.mem { held = true } in
      let metered : is_pos s.frequence_const ≡ true = rw const (ground arith) in
      let lock : Move s.mem (s.pc i) quiet m' metering = rw e (Move.meter metered free) in
      let at_meter : update s.pc i metering i ≡ metering = update-same s.pc i metering in
      let left : is_neg (value s.frequence) ≡ false = rw full refl in
      let pass : Move m' (update s.pc i metering i) quiet m' taking =
        rw at_meter (Move.go_on left) in
      taking-Gets (go (go w (run i lt on lock)) (run i lt on pass)) on
        (update-same (update s.pc i metering) i taking) full

  -- The main thread has the lock, and is about to set the budget.
  pub refilling-Gets :
      {ls : List Label} {s : System} (begin now : ℕ)
      → Way n start ls s
      → s.control ≡ refilling begin now
      → s.frequence_const ≡ pos limit
      → is_waiting (s.pc i) ≡ true
      → Gets n i start
  refilling-Gets {s = s} begin now w e const waits =
      let filled = go w (drive (refill begin now e)) in
      elim (woken (s.pc i) waits) [
        | inl at_head ↦ head-Gets filled refl at_head refl const const
        | inr at_resumed ↦ resumed-Gets filled refl at_resumed refl const
      ]

  deciding-Gets :
      {ls : List Label} {s : System} (begin now : ℕ)
      → Way n start ls s
      → s.control ≡ deciding begin now
      → s.held ≡ false
      → IsEndless limit s.frame
      → is_waiting (s.pc i) ≡ true
      → Gets n i start
  deciding-Gets {s = s} begin now w e free endless waits =
      let more : is_over s.frame begin now ≡ false =
        ground (arith, endless.no_count, endless.no_duration) in
      let metered : is_pos s.frequence_const ≡ true = rw endless.metered (ground arith) in
      refilling-Gets begin now (go w (drive (acquire begin now e more metered free))) refl
        endless.metered waits

  pub loop-Gets :
      {ls : List Label} {s : System} (c : Control)
      → Way n start ls s
      → is_closed c ≡ false
      → is_running c ≡ true
      → s.control ≡ c
      → s.held ≡ false
      → IsEndless limit s.frame
      → is_waiting (s.pc i) ≡ true
      → Gets n i start
  loop-Gets {s = s} (polling b last) w shut on e free endless waits =
      let now = last + 1 + b in
      let polled = go w (drive (poll b last now e (omega arith))) in
      let printed = go polled (drive (print b now (report s.statistic) refl (omega arith) refl)) in
      deciding-Gets b now (go printed (drive (reset b now refl))) refl free endless waits
  loop-Gets (deciding b now) w shut on e free endless waits =
      deciding-Gets b now w e free endless waits
  loop-Gets (resetting b now) w shut on e free endless waits =
      deciding-Gets b now (go w (drive (reset b now e))) refl free endless waits
  loop-Gets (refilling b now) w shut on e free endless waits =
      refilling-Gets b now w e endless.metered waits
  loop-Gets {s = s} (printing b now) w shut on e free endless waits =
      elim (Bool-cases (ltb b now)) [
        | inl later ↦
            let printed = go w (drive (print b now (report s.statistic) e (ground arith) refl)) in
            deciding-Gets b now (go printed (drive (reset b now refl))) refl free endless waits
        | inr not_later ↦
            deciding-Gets b now (go w (drive (print_nothing b now e (ground arith)))) refl free
              endless waits
      ]
  loop-Gets c w shut on e free endless waits = absurd (cc)

  pub checking-Gets :
      {ls : List Label} {s : System}
      → Way n start ls s
      → is_closed s.control ≡ false
      → is_running s.control ≡ true
      → IsEndless limit s.frame
      → s.pc i ≡ checking
      → Gets n i start
  checking-Gets {s = s} w shut on endless e = elim (Bool-cases (is_neg (value s.frequence))) [
    | inr left ↦
        let grant : Move s.mem (s.pc i) granted (record s.mem { held = false }) counting =
          rw e (Move.grant left) in
        (_, _, go w (run i lt on grant), update-same s.pc i counting)
    | inl gone ↦
        let retry : Move s.mem (s.pc i) quiet (record s.mem { held = false }) head =
          rw e (Move.retry gone) in
        loop-Gets s.control (go w (run i lt on retry)) shut on refl refl endless
          (rw (update-same s.pc i head) refl)
  ]

  pub take-Gets :
      {ls : List Label} {s : System}
      → Way n start ls s
      → is_closed s.control ≡ false
      → is_running s.control ≡ true
      → IsEndless limit s.frame
      → s.pc i ≡ taking
      → Gets n i start
  take-Gets {s = s} w shut on endless e =
      let m' : Shared = record s.mem {
        frame = record s.frame { frequence = (decrement s.frequence).0 };
      } in
      let take : Move s.mem (s.pc i) quiet m' checking = rw e Move.take_one in
      checking-Gets (go w (run i lt on take)) shut on
        (record {
          no_count = endless.no_count;
          no_duration = endless.no_duration;
          metered = endless.metered;
        })
        (update-same s.pc i checking)

  pub metering-Gets :
      {ls : List Label} {s : System}
      → Way n start ls s
      → is_closed s.control ≡ false
      → is_running s.control ≡ true
      → IsEndless limit s.frame
      → s.pc i ≡ metering
      → Gets n i start
  metering-Gets {s = s} w shut on endless e = elim (Bool-cases (is_neg (value s.frequence))) [
    | inr left ↦
        let pass : Move s.mem (s.pc i) quiet s.mem taking = rw e (Move.go_on left) in
        take-Gets (go w (run i lt on pass)) shut on endless (update-same s.pc i taking)
    | inl gone ↦
        let starve : Move s.mem (s.pc i) quiet (record s.mem { held = false }) starved =
          rw e (Move.starve gone) in
        loop-Gets s.control (go w (run i lt on starve)) shut on refl refl endless
          (rw (update-same s.pc i starved) refl)
  ]
