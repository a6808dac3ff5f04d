-- ===== src/Statistic/Output.antt =====
-- testframe.cpp, TestFrameStatistic::Output: what the printed report says.
use test_frame.Prelude.{◌+◌, ◌-◌, ◌^◌, ◌≤◌, ◌<◌, ◌≡◌, ℤ, pos, List, length, arith}
use test_frame.Statistic.{TestFrameStatistic, Share, report}
use test_frame.Statistic.History.{
  Call, after, last_second, successes, failures, late_delays, length-last_second-le,
}
use test_frame.Statistic.Summary.{RunCount, SecondCount, after-counts}

-- The results, and among them those that were in time.
abbrev pub in_time_share : ℤ → List Call → Share
in_time_share t h = record {
  part = pos (successes h + failures h - late_delays t h);
  whole = pos (successes h + failures h);
}

-- Every delay over the threshold has been followed by its result.
abbrev pub IsSettled : ℤ → List Call → Type 0
IsSettled t h = (0 < successes h + failures h) × (late_delays t h ≤ successes h + failures h)

report-run :
    (t : ℤ) (h : List Call) (s : TestFrameStatistic)
    → length h < 2 ^ 31
    → RunCount t h s
    → IsSettled t h
    → ((report s).success ≡ pos (successes h))
      × ((report s).failure ≡ pos (failures h))
      × ((report s).total ≡ pos (successes h + failures h))
      × ((report s).health ≡ in_time_share t h)
unfolding report
report-run t h s l c settled = ground arith

report-second :
    (t : ℤ) (h : List Call) (s : TestFrameStatistic)
    → length h < 2 ^ 31
    → SecondCount t h s
    → IsSettled t h
    → ((report s).success_ps ≡ pos (successes h))
      × ((report s).failure_ps ≡ pos (failures h))
      × ((report s).total_ps ≡ pos (successes h + failures h))
      × ((report s).health_ps ≡ in_time_share t h)
unfolding report
report-second t h s l c settled = ground arith

-- The report after fewer than 2 ^ 31 calls, in the run and since the last reset, where there is a
-- result and no more delays over the threshold than results: it prints the exact numbers of
-- successes, of failures and of both, and the exact share of the results that were in time.
pub report-after :
    (t : ℤ) (h : List Call)
    → length h < 2 ^ 31
    → IsSettled t h
    → IsSettled t (last_second h)
    → let r = report (after t h) in
      (r.success ≡ pos (successes h))
      × (r.failure ≡ pos (failures h))
      × (r.total ≡ pos (successes h + failures h))
      × (r.health ≡ in_time_share t h)
      × (r.success_ps ≡ pos (successes (last_second h)))
      × (r.failure_ps ≡ pos (failures (last_second h)))
      × (r.total_ps ≡ pos (successes (last_second h) + failures (last_second h)))
      × (r.health_ps ≡ in_time_share t (last_second h))
report-after t h l settled settled_ps =
    let c = after-counts t h l in
    let run = report-run t h (after t h) l c.0 settled in
    let ps =
      report-second t (last_second h) (after t h) (omega (arith, length-last_second-le h)) c.1
        settled_ps in
    (run.0, run.1, run.2, run.3, ps.0, ps.1, ps.2, ps.3)

-- The share of the run is computed in unsigned words: while more delays over the threshold are
-- counted than results, the part in time is printed as 2 ^ 64 less their difference.
pub report-health_wraps :
    (s : TestFrameStatistic)
    → 0 < s.total_count
    → s.total_count < s.timeout_count
    → s.timeout_count < 2 ^ 31
    → (report s).health.part ≡ pos (2 ^ 64 + s.total_count - s.timeout_count)
unfolding report
report-health_wraps s a b c = ground arith
