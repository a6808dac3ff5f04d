-- ===== src/Statistic.antt =====
-- TestFrameStatistic of testframe.h and testframe.cpp: the counts and delays of the run, and those of
-- the second under way (`_ps`). Each method runs under `cMutex`, so it is one step of the state;
-- `Output` reads without the mutex and then resets under it, so it is `report` and `reset_ps`.
-- An `int` that only counts up is held as its 32 bits; a delay is an `int`.

pub mod History
pub mod Summary
pub mod Output
pub mod Average
mod Tests
use test_frame.Prelude.{
  suc, ℕ, ◌+◌, ◌-◌, ◌/◌, ◌%◌, ◌^◌, ◌==◌, if◌then◌else◌, Bool, ◌&&◌, not, ℤ, pos, negsuc, ltb_ℤ,
  pos_part, neg_part, sub_ℕ, int_of_bits, to_bits,
}

pub record TestFrameStatistic : Type 0 where
  pub success_count : ℕ  -- int
  pub failure_count : ℕ  -- int
  pub total_count : ℕ  -- unsigned long long
  pub timeout_count : ℕ  -- int
  pub delay_sum : ℕ  -- unsigned long long
  pub max_delay_time : ℤ
  pub min_delay_time : ℤ
  pub success_count_ps : ℕ
  pub failure_count_ps : ℕ
  pub total_count_ps : ℕ  -- int
  pub timeout_count_ps : ℕ
  pub delay_sum_ps : ℕ  -- int
  pub max_delay_time_ps : ℤ
  pub min_delay_time_ps : ℤ

-- `n + 1` on an `int` and on an `unsigned long long`.
abbrev pub next_int : ℕ → ℕ
next_int n = (n + 1) % 2 ^ 32

abbrev pub next_long : ℕ → ℕ
next_long n = (n + 1) % 2 ^ 64

-- The constructor.
abbrev pub new_statistic : TestFrameStatistic
new_statistic = record {
  success_count = 0;
  failure_count = 0;
  total_count = 0;
  timeout_count = 0;
  delay_sum = 0;
  max_delay_time = pos 0;
  min_delay_time = pos 999999999;
  success_count_ps = 0;
  failure_count_ps = 0;
  total_count_ps = 0;
  timeout_count_ps = 0;
  delay_sum_ps = 0;
  max_delay_time_ps = pos 0;
  min_delay_time_ps = pos 99999999;
}

unfoldable pub increase_success_count : TestFrameStatistic → TestFrameStatistic
increase_success_count s = record s {
  success_count = next_int s.success_count;
  success_count_ps = next_int s.success_count_ps;
  total_count = next_long s.total_count;
  total_count_ps = next_int s.total_count_ps;
}

unfoldable pub increase_failure_count : TestFrameStatistic → TestFrameStatistic
increase_failure_count s = record s {
  failure_count = next_int s.failure_count;
  failure_count_ps = next_int s.failure_count_ps;
  total_count = next_long s.total_count;
  total_count_ps = next_int s.total_count_ps;
}

-- `cDelayThreshold && delay > cDelayThreshold`
abbrev pub is_nonzero : ℤ → Bool
is_nonzero z = not (pos_part z == 0 && neg_part z == 0)

abbrev pub is_late : ℤ → ℤ → Bool
is_late threshold delay = is_nonzero threshold && ltb_ℤ threshold delay

-- `UpdateDelay`, at the `cDelayThreshold` of the frame.
unfoldable pub update_delay : ℤ → ℤ → TestFrameStatistic → TestFrameStatistic
update_delay threshold delay s = record s {
  delay_sum = (s.delay_sum + to_bits 64 delay) % 2 ^ 64;
  delay_sum_ps = (s.delay_sum_ps + to_bits 32 delay) % 2 ^ 32;
  max_delay_time = if ltb_ℤ s.max_delay_time delay then delay else s.max_delay_time;
  min_delay_time = if ltb_ℤ delay s.min_delay_time then delay else s.min_delay_time;
  max_delay_time_ps = if ltb_ℤ s.max_delay_time_ps delay then delay else s.max_delay_time_ps;
  min_delay_time_ps = if ltb_ℤ delay s.min_delay_time_ps then delay else s.min_delay_time_ps;
  timeout_count = if is_late threshold delay then next_int s.timeout_count else s.timeout_count;
  timeout_count_ps =
      if is_late threshold delay then next_int s.timeout_count_ps else s.timeout_count_ps;
}

-- The reset under the mutex, at the end of `Output`.
unfoldable pub reset_ps : TestFrameStatistic → TestFrameStatistic
reset_ps s = record s {
  success_count_ps = 0;
  failure_count_ps = 0;
  total_count_ps = 0;
  timeout_count_ps = 0;
  delay_sum_ps = 0;
  max_delay_time_ps = pos 0;
  min_delay_time_ps = pos 99999999;
}

-- A share of `whole`, printed as `part * 100.00 / whole` per cent.
pub record Share : Type 0 where
  pub part : ℤ
  pub whole : ℤ

-- What `Output` prints: a line for the last second, and one for the whole run.
pub record Report : Type 0 where
  pub success_ps : ℤ
  pub failure_ps : ℤ
  pub total_ps : ℤ
  pub health_ps : Share
  pub delay_avg_ps : ℤ
  pub max_delay_ps : ℤ
  pub min_delay_ps : ℤ
  pub success : ℤ
  pub failure : ℤ
  pub total : ℤ
  pub health : Share
  pub delay_avg : ℕ
  pub max_delay : ℤ
  pub min_delay : ℤ

-- The quotient of two `int`s, rounded towards 0.
abbrev pub int_div : ℤ → ℤ → ℤ
int_div (pos a) (pos b) = pos (a / b)
int_div (negsuc a) (pos b) = sub_ℕ 0 (suc a / b)
int_div (pos a) (negsuc b) = sub_ℕ 0 (a / suc b)
int_div (negsuc a) (negsuc b) = pos (suc a / suc b)

-- `100.00` where nothing has been counted.
abbrev pub all_healthy : Share
all_healthy = record { part = pos 1; whole = pos 1 }

unfoldable pub report : TestFrameStatistic → Report
report s = record {
  success_ps = int_of_bits s.success_count_ps;
  failure_ps = int_of_bits s.failure_count_ps;
  total_ps = int_of_bits s.total_count_ps;
  health_ps = if s.total_count_ps == 0 then all_healthy else record {
    part = int_of_bits (s.total_count_ps + (2 ^ 32 - s.timeout_count_ps % 2 ^ 32));
    whole = int_of_bits s.total_count_ps;
  };
  delay_avg_ps =
      if s.total_count_ps == 0
      then pos 0
      else int_div (int_of_bits s.delay_sum_ps) (int_of_bits s.total_count_ps);
  max_delay_ps = s.max_delay_time_ps;
  min_delay_ps = s.min_delay_time_ps;
  success = int_of_bits s.success_count;
  failure = int_of_bits s.failure_count;
  total = int_of_bits s.total_count;
  health = if s.total_count == 0 then all_healthy else record {
    part = pos ((s.total_count + (2 ^ 64 - to_bits 64 (int_of_bits s.timeout_count))) % 2 ^ 64);
    whole = pos s.total_count;
  };
  delay_avg = s.delay_sum / s.total_count;
  max_delay = s.max_delay_time;
  min_delay = s.min_delay_time;
}
