-- ===== src/Frame/Endless.antt =====
-- testframe.cpp: the flow control in a run without an end.
use test_frame.Prelude.{
  ℕ, ◌<◌, ◌≡◌, ◌≢◌, refl, sym, ◌∙◌, ap, inl, inr, true, false, Bool, Bool-cases, List, arith,
}
use test_frame.Frame.{TestFrame}
use test_frame.Frame.Worker.{
  Shared, Pc, head, metering, starved, resumed, taking, checking, counting, Label,
}
use test_frame.Frame.System.{System, Reach, is_running, threads}
use test_frame.Frame.Threads.{Settings, own-Settings, Reach-Settings}
use test_frame.Frame.Lock.{is_closed, holders}
use test_frame.Frame.Start.{Way, stay}
use test_frame.Frame.Duration.{Way-Settings}
use test_frame.Frame.Progress.{has_lock, holder-Frees, Alone-Way, Alone-others}
use test_frame.Frame.Quota.{IsSmall}
use test_frame.Frame.Supply.{
  Gets, IsEndless, is_waiting, loop-Gets, refilling-Gets, checking-Gets, take-Gets, metering-Gets,
}

-- Whether the thread is inside of the flow control.
abbrev pub is_metered : Pc → Bool
is_metered head = true
is_metered metering = true
is_metered starved = true
is_metered resumed = true
is_metered taking = true
is_metered checking = true
is_metered _ = false

Settings-IsEndless :
    {f : TestFrame} {limit : ℕ} {m : Shared}
    → Settings f m
    → IsEndless limit f
    → IsEndless limit m.frame
Settings-IsEndless v endless = record {
  no_count = rw v.same_repeat endless.no_count;
  no_duration = rw v.same_duration endless.no_duration;
  metered = v.same_frequence ∙ endless.metered;
}

waiting-holders : (p : Pc) → is_waiting p ≡ true → holders p ≡ 0
waiting-holders p e = ground arith

module _ {f : TestFrame} {ls : List Label} {s : System} (i limit : ℕ) (lt : i < threads f)
    (small : IsSmall limit) (some : 0 < limit) (r : Reach f ls s)
    (shut : is_closed s.control ≡ false) (on : is_running s.control ≡ true)
    (endless : IsEndless limit s.frame) where
  -- A thread that waits: whoever has the lock gives it back first.
  waiting-Gets : is_waiting (s.pc i) ≡ true → Gets (threads f) i s
  waiting-Gets waits = elim (Bool-cases s.held) [
    | inr free ↦ loop-Gets i limit lt small some s.control stay shut on refl free endless waits
    | inl held ↦ elim (has_lock r held) [
      | inl (b, now, e) ↦ refilling-Gets i limit lt small some b now stay e endless.metered waits
      | inr (j, lt', w) ↦
          let (k, t, alone, few, free) = holder-Frees j (s.pc j) s refl w in
          let differs : i ≢ j =
            λ same. w (ap (λ x. holders (s.pc x)) (sym same) ∙ waiting-holders (s.pc i) waits) in
          let (later, way) = Alone-Way j lt' on stay alone in
          let (same_pc, same_control) = Alone-others i j differs alone in
          loop-Gets i limit lt small some t.control way (rw same_control shut) (rw same_control on)
            refl free (Settings-IsEndless (Way-Settings way (own-Settings s.mem)) endless)
            (rw same_pc waits)
    ]
  ]

  metered-Gets : (p : Pc) → is_metered p ≡ true → s.pc i ≡ p → Gets (threads f) i s
  metered-Gets metering m e = metering-Gets i limit lt small some stay shut on endless e
  metered-Gets taking m e = take-Gets i limit lt small some stay shut on endless e
  metered-Gets checking m e = checking-Gets i limit lt small some stay shut on endless e
  metered-Gets head m e = waiting-Gets (rw e refl)
  metered-Gets starved m e = waiting-Gets (rw e refl)
  metered-Gets resumed m e = waiting-Gets (rw e refl)
  metered-Gets p m e = absurd (cc)

-- The flow control shuts no thread out: in a run without a repeat count and without a duration, where
-- the flow control is set to a positive number below 2 ^ 31, from every state that can be reached once
-- the threads have been started, while the process runs, the program can go on so that a given thread
-- that is inside of the flow control gets a packet.
pub Reach-Gets :
    {f : TestFrame} {ls : List Label} {s : System} (i limit : ℕ)
    → Reach f ls s
    → IsSmall limit
    → 0 < limit
    → IsEndless limit f
    → is_closed s.control ≡ false
    → is_running s.control ≡ true
    → i < threads f
    → is_metered (s.pc i) ≡ true
    → (later : List Label) × (t : System) × Way (threads f) s later t × (t.pc i ≡ counting)
Reach-Gets {s = s} i limit r small some endless shut on lt m =
    metered-Gets i limit lt small some r shut on (Settings-IsEndless (Reach-Settings r) endless)
      (s.pc i) m refl
