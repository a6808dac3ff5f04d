-- ===== src/Frame.antt =====
-- TestFrame and TestFrameThread of testframe.h and testframe.cpp: what is configured, the tests that
-- the loops of `Run` and `RunX` make, and the measure of a delay. The setters' result is always 0.
pub mod Worker
pub mod System
pub mod Threads
pub mod Lock
pub mod Quota
pub mod Rate
pub mod Start
pub mod Record
pub mod Stop
pub mod Duration
pub mod Exit
pub mod Pace
pub mod Supply
pub mod Endless
pub mod Work
pub mod Effort
pub mod Idle
pub mod Complete
pub mod Ends
pub mod Finish
pub mod Seconds
pub mod Spent
pub mod Progress
mod Tests
mod Examples
pub mod Runs
use test_frame.Prelude.{
  ℕ, ◌+◌, ◌-◌, ◌*◌, ◌/◌, ◌%◌, ◌^◌, ◌==◌, leb, if◌then◌else◌, Bool, ◌&&◌, ◌||◌, not, Option, none,
  some, ℤ, pos, negsuc, pos_part, is_pos, is_neg, int_of_bits,
}
use test_frame.Synch.{AtomicCounter, Timeval, new_counter, assign, value}

-- `cTestFrameStatistic` stands beside the frame in Frame/Worker.antt, and so does `cLock`.
pub record TestFrame : Type 0 where
  pub test_case : Option ℕ  -- a pointer: `none` is NULL
  pub thread_num : ℤ
  pub repeat_count_const : ℤ
  pub duration_time : ℤ
  pub frequence_const : ℤ
  pub frequence : AtomicCounter
  pub repeat_count : AtomicCounter
  pub delay_threshold : ℤ

-- The constructor.
abbrev pub new_frame : TestFrame
new_frame = record {
  test_case = none;
  thread_num = pos 10;
  repeat_count_const = pos 0;
  duration_time = pos 0;
  frequence_const = pos 0;
  frequence = new_counter (pos 0);
  repeat_count = new_counter (pos 0);
  delay_threshold = pos 0;
}

abbrev pub set_test_case : Option ℕ → TestFrame → TestFrame
set_test_case tc f = record f { test_case = tc }

abbrev pub set_thread_num : ℤ → TestFrame → TestFrame
set_thread_num num f = record f { thread_num = num }

abbrev pub set_repeat_count : ℤ → TestFrame → TestFrame
set_repeat_count count f = record f {
  repeat_count_const = count;
  repeat_count = assign f.repeat_count count;
}

abbrev pub set_duration_time : ℤ → TestFrame → TestFrame
set_duration_time seconds f = record f { duration_time = seconds }

abbrev pub set_frequence : ℤ → TestFrame → TestFrame
set_frequence frequence f = record f { frequence_const = frequence }

abbrev pub set_delay_threshold : ℤ → TestFrame → TestFrame
set_delay_threshold threshold f = record f { delay_threshold = threshold }

-- The two tests by which the loop of `Run` ends: all is sent, or the time is over.
abbrev pub all_sent : TestFrame → Bool
all_sent f = is_pos f.repeat_count_const && not (is_pos (value f.repeat_count))

abbrev pub time_is_over : TestFrame → ℕ → ℕ → Bool
time_is_over f begin now = is_pos f.duration_time && leb (begin + pos_part f.duration_time) now

abbrev pub is_over : TestFrame → ℕ → ℕ → Bool
is_over f begin now = all_sent f || time_is_over f begin now

-- The quotient of a difference of clock readings in microseconds by 1000, rounded towards 0.
abbrev pub milliseconds : ℕ → ℕ → ℤ
milliseconds begin end =
    if leb begin end
    then int_of_bits ((end - begin) / 1000)
    else int_of_bits (2 ^ 32 - (begin - end) / 1000 % 2 ^ 32)

-- `delay` in `TestFrameThread::Execute`
abbrev pub delay : Timeval → Timeval → ℤ
delay begin end =
    milliseconds (begin.tv_usec + 1000000 * begin.tv_sec) (end.tv_usec + 1000000 * end.tv_sec)
