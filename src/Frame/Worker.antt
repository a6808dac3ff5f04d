-- ===== src/Frame/Worker.antt =====
-- testframe.cpp, TestFrameThread::RunX and Execute: one thread, an access to shared state at a time.
-- `Client` and the test case enter by the results of Init, PreExecute and Execute, which are left open.
use test_frame.Prelude.{
  ◌≡◌, ◌==◌, if◌then◌else◌, Bool, true, false, ◌&&◌, ℤ, is_pos, is_neg, pos_part, neg_part,
}
use test_frame.Synch.{Timeval, decrement, value}
use test_frame.Statistic.{
  TestFrameStatistic, increase_success_count, increase_failure_count, update_delay,
}
use test_frame.Frame.{TestFrame, delay}

-- What the threads share; `held` says whether some thread has `cLock`.
pub record Shared : Type 0 where
  pub frame : TestFrame
  pub open frame use *
  pub statistic : TestFrameStatistic
  pub held : Bool

-- Where a thread stands, with the local `rc` where it is read again.
pub data Pc : Type 0 where
  unborn : Pc  -- not created yet
  born : Pc  -- before `Init`
  entering : Pc  -- before the first `cLock.Lock()`
  preparing : Pc  -- inside `PreExecute`, with the lock
  gated : ℤ → Pc  -- waiting for the start
  called : ℤ → Pc  -- woken at the start, without the lock yet
  refused : Pc  -- returned after a `PreExecute` that failed
  head : Pc  -- the head of the loop
  metering : Pc  -- before the first test of `cFrequence`, with the lock
  starved : Pc  -- waiting for the next second
  resumed : Pc  -- woken in the next second, without the lock yet
  taking : Pc  -- before `cFrequence--`, with the lock
  checking : Pc  -- before the double check, with the lock
  counting : Pc  -- before the test of the repeat count
  executing : Pc  -- inside the test case
  settling : ℤ → Pc  -- the delay is recorded, the result is not
  finished : Pc  -- returned by the `break`

-- What a step shows to an observer: the start of a budget for a second, a packet within that budget,
-- or a wait that returns although nobody has signalled.
pub data Label : Type 0 where
  quiet refilled granted early : Label

-- `if (rc == 0)`
abbrev pub is_zero : ℤ → Bool
is_zero z = pos_part z == 0 && neg_part z == 0

abbrev pub settle_result : ℤ → TestFrameStatistic → TestFrameStatistic
settle_result rc s = if is_zero rc then increase_success_count s else increase_failure_count s

pub data Move (m : Shared) : Pc → Label → Shared → Pc → Type 0 where
  init : Move m born quiet m entering
  enter : m.held ≡ false → Move m entering quiet (record m { held = true }) preparing
  -- `Wait` gives the lock back.
  pre_execute : (rc : ℤ) → Move m preparing quiet (record m { held = false }) (gated rc)
  start_early : {rc : ℤ} → Move m (gated rc) early m (called rc)
  -- `Wait` takes the lock again, and `Unlock` gives it back.
  pass : {rc : ℤ} → m.held ≡ false → is_zero rc ≡ true → Move m (called rc) quiet m head
  refuse : {rc : ℤ} → m.held ≡ false → is_zero rc ≡ false → Move m (called rc) quiet m refused
  unmetered : is_pos m.frequence_const ≡ false → Move m head quiet m counting
  meter :
      is_pos m.frequence_const ≡ true
      → m.held ≡ false
      → Move m head quiet (record m { held = true }) metering
  starve :
      is_neg (value m.frequence) ≡ true → Move m metering quiet (record m { held = false }) starved
  go_on : is_neg (value m.frequence) ≡ false → Move m metering quiet m taking
  resume_early : Move m starved early m resumed
  resume : m.held ≡ false → Move m resumed quiet (record m { held = true }) taking
  take_one :
      Move m taking quiet
        (record m { frame = record m.frame { frequence = (decrement m.frequence).0 } })
        checking
  retry : is_neg (value m.frequence) ≡ true → Move m checking quiet (record m { held = false }) head
  grant :
      is_neg (value m.frequence) ≡ false
      → Move m checking granted (record m { held = false }) counting
  uncounted : is_pos m.repeat_count_const ≡ false → Move m counting quiet m executing
  count :
      is_pos m.repeat_count_const ≡ true
      → is_neg (decrement m.repeat_count).1 ≡ false
      → Move m counting quiet
          (record m { frame = record m.frame { repeat_count = (decrement m.repeat_count).0 } })
          executing
  quit :
      is_pos m.repeat_count_const ≡ true
      → is_neg (decrement m.repeat_count).1 ≡ true
      → Move m counting quiet
          (record m { frame = record m.frame { repeat_count = (decrement m.repeat_count).0 } })
          finished
  execute :
      (rc : ℤ) (begin end : Timeval)
      → Move m executing quiet
          (record m { statistic = update_delay m.delay_threshold (delay begin end) m.statistic })
          (settling rc)
  settle :
      {rc : ℤ}
      → Move m (settling rc) quiet (record m { statistic = settle_result rc m.statistic }) head
