-- ===== src/Statistic/Tests.antt =====
-- Runs of TestFrameStatistic.
use test_frame.Prelude.{◌≡◌, ◌≤ℤ◌, refl, pos, List, [], ◌∷◌, arith}
use test_frame.Statistic.{TestFrameStatistic, report, new_statistic}
use test_frame.Statistic.History.{
  Call, delayed, succeeded, failed, printed, after, last_second, delays,
}
use test_frame.Statistic.Summary.{
  RunCount, SecondCount, after-counts, after-ranges, IsRange, after-delay_sum,
}
use test_frame.Statistic.Average.{report-average}
use test_frame.Statistic.Output.{report-after, report-health_wraps}

-- Two results in a second that has been printed, and one since, of which the delay was over 300 ms.
abbrev calls : List Call
calls =
    failed
    ∷ delayed (pos 400)
    ∷ printed
    ∷ succeeded
    ∷ delayed (pos 20)
    ∷ succeeded
    ∷ delayed (pos 10)
    ∷ []

after-counts_example :
    RunCount (pos 300) calls (after (pos 300) calls)
    × SecondCount (pos 300) (last_second calls) (after (pos 300) calls)
after-counts_example = after-counts (pos 300) calls (omega arith)

calls_ranged :
    IsRange
      (pos 999999999)
      (delays calls)
      (after (pos 300) calls).max_delay_time
      (after (pos 300) calls).min_delay_time
    × IsRange
        (pos 99999999)
        (delays (last_second calls))
        (after (pos 300) calls).max_delay_time_ps
        (after (pos 300) calls).min_delay_time_ps
calls_ranged = after-ranges (pos 300) calls

delays_added :
    ((after (pos 300) calls).delay_sum ≡ 430) × ((after (pos 300) calls).delay_sum_ps ≡ 400)
delays_added = after-delay_sum (pos 300) calls (omega arith) (omega arith)

calls_reported :
    let r = report (after (pos 300) calls) in
    (r.success ≡ pos 2)
    × (r.failure ≡ pos 1)
    × (r.total ≡ pos 3)
    × (r.health ≡ record { part = pos 2; whole = pos 3 })
    × (r.success_ps ≡ pos 0)
    × (r.failure_ps ≡ pos 1)
    × (r.total_ps ≡ pos 1)
    × (r.health_ps ≡ record { part = pos 0; whole = pos 1 })
calls_reported = report-after (pos 300) calls (omega arith) (omega arith) (omega arith)

report-average_example :
    let r = report (after (pos 300) calls) in
    (r.min_delay ≤ℤ pos r.delay_avg)
    × (pos r.delay_avg ≤ℤ r.max_delay)
    × (r.min_delay_ps ≤ℤ r.delay_avg_ps)
    × (r.delay_avg_ps ≤ℤ r.max_delay_ps)
report-average_example =
    report-average (pos 300) calls (omega arith) (omega arith) (omega arith)
      (record { some_result = omega arith; same_number = refl })
      (record { some_result = omega arith; same_number = refl })

-- A result in time, and two delays over the threshold that still wait for theirs.
abbrev hanging : TestFrameStatistic
hanging = record new_statistic { total_count = 1; timeout_count = 2 }

hanging_wraps : (report hanging).health.part ≡ pos 18446744073709551615
hanging_wraps = report-health_wraps hanging (omega arith) (omega arith) (omega arith)

average : (report (after (pos 0) calls)).delay_avg ≡ 143
unfolding report after
average = refl
