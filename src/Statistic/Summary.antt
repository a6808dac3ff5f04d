-- ===== src/Statistic/Summary.antt =====
-- testframe.cpp, TestFrameStatistic: what the fields say of the calls received.
use test_frame.Prelude.{
  ℕ, ◌+◌, ◌^◌, ◌≤◌, ◌<◌, ◌≡◌, refl, ◌⊎◌, inl, if◌then◌else◌, ℤ, pos, negsuc, ◌≤ℤ◌, ltb_ℤ, List, [],
  ◌∷◌, length, arith,
}
use test_frame.Statistic.{TestFrameStatistic}
use test_frame.Statistic.History.{
  Call, delayed, succeeded, failed, printed, apply, after, last_second, successes, failures,
  late_delays, delays, sum, AtMost, AtLeast, Occurs, AtMost-mono, AtLeast-mono,
  length-last_second-le,
}

-- The counts that a list of calls amounts to.
pub record IsCount (threshold : ℤ) (h : List Call) (success failure total timeouts : ℕ)
    : Type 0 where
  pub of_success : success ≡ successes h
  pub of_failure : failure ≡ failures h
  pub of_total : total ≡ successes h + failures h
  pub of_timeouts : timeouts ≡ late_delays threshold h
  pub within : successes h + failures h + late_delays threshold h ≤ length h

abbrev pub RunCount : ℤ → List Call → TestFrameStatistic → Type 0
RunCount t h s = IsCount t h s.success_count s.failure_count s.total_count s.timeout_count

abbrev pub SecondCount : ℤ → List Call → TestFrameStatistic → Type 0
SecondCount t h s =
    IsCount t h s.success_count_ps s.failure_count_ps s.total_count_ps s.timeout_count_ps

apply-RunCount :
    (t : ℤ) (c : Call) (h : List Call) (s : TestFrameStatistic)
    → length h < 2 ^ 31
    → RunCount t h s
    → RunCount t (c ∷ h) (apply t c s)
unfolding apply
apply-RunCount t (delayed d) h s l r = ground arith
apply-RunCount t succeeded h s l r = ground arith
apply-RunCount t failed h s l r = ground arith
apply-RunCount t printed h s l r = ground arith

apply-SecondCount :
    (t : ℤ) (c : Call) (h : List Call) (s : TestFrameStatistic)
    → length (last_second h) < 2 ^ 31
    → SecondCount t (last_second h) s
    → SecondCount t (last_second (c ∷ h)) (apply t c s)
unfolding apply
apply-SecondCount t (delayed d) h s l r = ground arith
apply-SecondCount t succeeded h s l r = ground arith
apply-SecondCount t failed h s l r = ground arith
apply-SecondCount t printed h s l r = ground arith

-- After fewer than 2 ^ 31 calls, in any order, the counts of the run are exact: the successes, the
-- failures, their sum and the delays over the threshold; the counts of the second are those of the
-- calls since the last reset.
pub after-counts :
    (t : ℤ) (h : List Call)
    → length h < 2 ^ 31
    → RunCount t h (after t h) × SecondCount t (last_second h) (after t h)
unfolding after
after-counts t [] l = omega arith
after-counts t (c ∷ h) l =
    let ih = after-counts t h (omega arith) in
    (
      apply-RunCount t c h (after t h) (omega arith) ih.0,
      apply-SecondCount t c h (after t h) (omega (arith, length-last_second-le h)) ih.1,
    )

-- `hi` and `lo` are the extremes of the delays, and of the values that the fields start from.
pub record IsRange (least : ℤ) (ds : List ℤ) (hi lo : ℤ) : Type 0 where
  pub at_most : AtMost hi ds
  pub at_least : AtLeast lo ds
  pub hi_starts : pos 0 ≤ℤ hi
  pub lo_starts : lo ≤ℤ least
  pub hi_occurs : (hi ≡ pos 0) ⊎ Occurs hi ds
  pub lo_occurs : (lo ≡ least) ⊎ Occurs lo ds

widen :
    (least d : ℤ) (ds : List ℤ) (hi lo : ℤ)
    → IsRange least ds hi lo
    → IsRange least (d ∷ ds) (if ltb_ℤ hi d then d else hi) (if ltb_ℤ d lo then d else lo)
widen least d ds hi lo r = record {
  at_most = ground (arith, AtMost-mono hi d ds);
  at_least = ground (arith, AtLeast-mono lo d ds);
  hi_starts = ground arith;
  lo_starts = ground arith;
  hi_occurs = ground arith;
  lo_occurs = ground arith;
}

apply-ranges :
    (t : ℤ) (c : Call) (h : List Call) (s : TestFrameStatistic)
    → IsRange (pos 999999999) (delays h) s.max_delay_time s.min_delay_time
    → IsRange
        (pos 999999999)
        (delays (c ∷ h))
        (apply t c s).max_delay_time
        (apply t c s).min_delay_time
unfolding apply
apply-ranges t (delayed d) h s r = widen (pos 999999999) d (delays h) _ _ r
apply-ranges t succeeded h s r = r
apply-ranges t failed h s r = r
apply-ranges t printed h s r = r

fresh-IsRange : (least : ℤ) → IsRange least [] (pos 0) least
fresh-IsRange least = record {
  at_most = tt;
  at_least = tt;
  hi_starts = omega arith;
  lo_starts = omega arith;
  hi_occurs = inl refl;
  lo_occurs = inl refl;
}

apply-ranges_ps :
    (t : ℤ) (c : Call) (h : List Call) (s : TestFrameStatistic)
    → IsRange (pos 99999999) (delays (last_second h)) s.max_delay_time_ps s.min_delay_time_ps
    → IsRange
        (pos 99999999)
        (delays (last_second (c ∷ h)))
        (apply t c s).max_delay_time_ps
        (apply t c s).min_delay_time_ps
unfolding apply
apply-ranges_ps t (delayed d) h s r = widen (pos 99999999) d (delays (last_second h)) _ _ r
apply-ranges_ps t succeeded h s r = r
apply-ranges_ps t failed h s r = r
apply-ranges_ps t printed h s r = fresh-IsRange (pos 99999999)

-- After any calls the largest and the smallest delay of the run, and of the calls since the last
-- reset, are exact: no delay lies outside, and each of the four is a delay of the calls, or the value
-- that the field starts from.
pub after-ranges :
    (t : ℤ) (h : List Call)
    → IsRange (pos 999999999) (delays h) (after t h).max_delay_time (after t h).min_delay_time
      × IsRange
          (pos 99999999)
          (delays (last_second h))
          (after t h).max_delay_time_ps
          (after t h).min_delay_time_ps
unfolding after
after-ranges t [] = (fresh-IsRange (pos 999999999), fresh-IsRange (pos 99999999))
after-ranges t (c ∷ h) =
    let ih = after-ranges t h in
    (apply-ranges t c h (after t h) ih.0, apply-ranges_ps t c h (after t h) ih.1)

-- No clock went back between the two readings of a delay.
abbrev pub NonNegative : List ℤ → Type 0
NonNegative [] = Unit
NonNegative (d ∷ ds) = (pos 0 ≤ℤ d) × NonNegative ds

pub NonNegative-last_second :
    (h : List Call) → NonNegative (delays h) → NonNegative (delays (last_second h))
NonNegative-last_second [] n = tt
NonNegative-last_second (delayed d ∷ h) n = (n.0, NonNegative-last_second h n.1)
NonNegative-last_second (succeeded ∷ h) n = NonNegative-last_second h n
NonNegative-last_second (failed ∷ h) n = NonNegative-last_second h n
NonNegative-last_second (printed ∷ h) n = tt

pub sum-last_second-le : (h : List Call) → sum (delays (last_second h)) ≤ sum (delays h)
sum-last_second-le [] = omega arith
sum-last_second-le (delayed d ∷ h) = omega (arith, sum-last_second-le h)
sum-last_second-le (succeeded ∷ h) = sum-last_second-le h
sum-last_second-le (failed ∷ h) = sum-last_second-le h
sum-last_second-le (printed ∷ h) = omega arith

apply-delay_sum :
    (t : ℤ) (c : Call) (h : List Call) (s : TestFrameStatistic)
    → NonNegative (delays (c ∷ h))
    → sum (delays (c ∷ h)) < 2 ^ 31
    → (s.delay_sum ≡ sum (delays h)) × (s.delay_sum_ps ≡ sum (delays (last_second h)))
    → ((apply t c s).delay_sum ≡ sum (delays (c ∷ h)))
      × ((apply t c s).delay_sum_ps ≡ sum (delays (last_second (c ∷ h))))
unfolding apply
apply-delay_sum t (delayed (pos d)) h s n l e = ground (arith, sum-last_second-le h)
apply-delay_sum t (delayed (negsuc d)) h s n l e = absurd (omega arith)
apply-delay_sum t succeeded h s n l e = e
apply-delay_sum t failed h s n l e = e
apply-delay_sum t printed h s n l e = (e.0, refl)

tail-NonNegative :
    (c : Call) (h : List Call) → NonNegative (delays (c ∷ h)) → NonNegative (delays h)
tail-NonNegative (delayed d) h n = n.1
tail-NonNegative succeeded h n = n
tail-NonNegative failed h n = n
tail-NonNegative printed h n = n

sum-tail-le : (c : Call) (h : List Call) → sum (delays h) ≤ sum (delays (c ∷ h))
sum-tail-le (delayed d) h = omega arith
sum-tail-le succeeded h = omega arith
sum-tail-le failed h = omega arith
sum-tail-le printed h = omega arith

-- Where no delay is negative and all of them add up to less than 2 ^ 31 milliseconds, the sums of
-- the delays are exact, that of the run and that of the calls since the last reset.
pub after-delay_sum :
    (t : ℤ) (h : List Call)
    → NonNegative (delays h)
    → sum (delays h) < 2 ^ 31
    → ((after t h).delay_sum ≡ sum (delays h))
      × ((after t h).delay_sum_ps ≡ sum (delays (last_second h)))
unfolding after
after-delay_sum t [] n l = (refl, refl)
after-delay_sum t (c ∷ h) n l =
    apply-delay_sum t c h (after t h) n l
      (after-delay_sum t h (tail-NonNegative c h n) (omega (arith, sum-tail-le c h)))
