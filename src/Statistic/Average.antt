-- ===== src/Statistic/Average.antt =====
-- testframe.cpp, TestFrameStatistic::Output: the printed averages of the delays.
use test_frame.Prelude.{
  ℕ, ◌+◌, ◌*◌, ◌/◌, ◌^◌, ◌≤◌, ◌<◌, ◌≡◌, ◌==◌, false, ℤ, pos, pos_part, ◌≤ℤ◌, List, [], ◌∷◌, length,
  arith, refl, int_of_bits-eq_of_lt,
}
use native.Mathlib.Nat.{le-div_iff_mul-le, div-le_of_le-mul, mul_comm}
use test_frame.Statistic.{TestFrameStatistic, report}
use test_frame.Statistic.History.{
  Call, after, last_second, successes, failures, delays, sum, length-last_second-le, AtMost,
  AtLeast,
}
use test_frame.Statistic.Summary.{
  IsRange, NonNegative, after-counts, after-ranges, after-delay_sum, sum-last_second-le,
}

pos_part_mono : (a b : ℤ) → a ≤ℤ b → pos_part a ≤ pos_part b
pos_part_mono a b le = ground arith

-- Where no value exceeds `hi`, the sum does not exceed `hi` times their number; and from below.
AtMost-sum : (hi : ℤ) (ds : List ℤ) → AtMost hi ds → sum ds ≤ length ds * pos_part hi
AtMost-sum hi [] m = omega arith
AtMost-sum hi (d ∷ ds) m = omega (arith, pos_part_mono d hi m.0, AtMost-sum hi ds m.1)

AtLeast-sum : (lo : ℤ) (ds : List ℤ) → AtLeast lo ds → length ds * pos_part lo ≤ sum ds
AtLeast-sum lo [] m = omega arith
AtLeast-sum lo (d ∷ ds) m = omega (arith, pos_part_mono lo d m.0, AtLeast-sum lo ds m.1)

-- Results there are, and each has its delay among those of the calls.
pub record IsPaired (h : List Call) : Type 0 where
  pub some_result : 0 < successes h + failures h
  pub same_number : length (delays h) ≡ successes h + failures h

-- The quotient of the sum by the number lies between the extremes.
average-between :
    (least hi lo : ℤ) (h : List Call)
    → IsPaired h
    → IsRange least (delays h) hi lo
    → let average = pos (sum (delays h) / (successes h + failures h)) in
      (lo ≤ℤ average) × (average ≤ℤ hi)
average-between least hi lo h paired r =
    let n = successes h + failures h in
    let above : sum (delays h) ≤ n * pos_part hi =
      rw paired.same_number at (AtMost-sum hi (delays h) r.at_most) in
    let below : n * pos_part lo ≤ sum (delays h) =
      rw paired.same_number at (AtLeast-sum lo (delays h) r.at_least) in
    let up : sum (delays h) / n ≤ pos_part hi = div-le_of_le-mul n above in
    let down : pos_part lo ≤ sum (delays h) / n =
      (le-div_iff_mul-le paired.some_result).1 (rw (mul_comm n (pos_part lo)) at below) in
    (ground (arith, down), ground (arith, up, r.hi_starts))

-- The average of the second, where its sum and its number are in range.
delay_avg_ps-exact :
    (s : TestFrameStatistic) (sum_ps n : ℕ)
    → s.delay_sum_ps ≡ sum_ps
    → s.total_count_ps ≡ n
    → 0 < n
    → n < 2 ^ 31
    → sum_ps < 2 ^ 31
    → (report s).delay_avg_ps ≡ pos (sum_ps / n)
unfolding report
delay_avg_ps-exact s sum_ps n same same_n positive few fits =
    let nonzero : (n == 0) ≡ false = ground arith in
    rw (same, same_n, nonzero, int_of_bits-eq_of_lt sum_ps fits, int_of_bits-eq_of_lt n few) refl

-- The printed averages of the delays lie between the printed extremes: after fewer than 2 ^ 31 calls,
-- where no delay is negative, all of them add up to less than 2 ^ 31 milliseconds, there is a result,
-- and as many delays as results, in the run and since the last reset.
pub report-average :
    (t : ℤ) (h : List Call)
    → length h < 2 ^ 31
    → NonNegative (delays h)
    → sum (delays h) < 2 ^ 31
    → IsPaired h
    → IsPaired (last_second h)
    → let r = report (after t h) in
      (r.min_delay ≤ℤ pos r.delay_avg)
      × (pos r.delay_avg ≤ℤ r.max_delay)
      × (r.min_delay_ps ≤ℤ r.delay_avg_ps)
      × (r.delay_avg_ps ≤ℤ r.max_delay_ps)
unfolding report
report-average t h short real fits paired paired_ps =
    let (run, second) = after-counts t h short in
    let (sums, sums_ps) = after-delay_sum t h real fits in
    let (range, range_ps) = after-ranges t h in
    let (low, high) = average-between (pos 999999999) _ _ h paired range in
    let (low_ps, high_ps) = average-between (pos 99999999) _ _ (last_second h) paired_ps range_ps in
    let avg_ps =
      delay_avg_ps-exact (after t h) _ _ sums_ps second.of_total paired_ps.some_result
        (omega (arith, second.within, short, length-last_second-le h))
        (omega (arith, sum-last_second-le h)) in
    (rw (sums, run.of_total) low, rw (sums, run.of_total) high, rw avg_ps low_ps, rw avg_ps high_ps)
