-- ===== src/Frame/Seconds.antt =====
-- testframe.cpp: the lines of the report for the single seconds. `Output` prints the numbers of the second
-- without the mutex, and then sets them to 0 under it.
use test_frame.Prelude.{
  ℕ, ◌+◌, ◌^◌, ◌<◌, ◌≡◌, refl, Bool, true, false, if◌then◌else◌, List, length, arith, pos_part,
  int_of_bits-eq_of_lt,
}
use test_frame.Statistic.{
  report, reset_ps, update_delay, increase_success_count, increase_failure_count,
}
use test_frame.Statistic.History.{length-last_second-le}
use test_frame.Statistic.Summary.{after-counts}
use test_frame.Frame.{TestFrame}
use test_frame.Frame.Worker.{Shared, Pc, Label, Move, settle}
use test_frame.Frame.System.{
  Control, resetting, System, Drive, no_case, has_case, create, create_fails, created, open_budget,
  open_free, start, poll, print, print_nothing, reset, exit, keep, acquire, refill, drive, run,
  Reach, here, next,
}
use test_frame.Frame.Record.{Reach-Recorded}

-- The number of results in the line for a second, where the step prints one.
abbrev pub line_of : {n : ℕ} {s t : System} {l : Label} → Drive n s l t → ℕ
line_of (print begin now r e a p) = pos_part r.total_ps
line_of d = 0

-- Whether the main thread stands between the printing and the reset.
abbrev pub is_resetting : Control → Bool
is_resetting (resetting begin now) = true
is_resetting _ = false

-- A result that a thread records.
abbrev pub result_of : {m m' : Shared} {p p' : Pc} {l : Label} → Move m p l m' p' → ℕ
result_of settle = 1
result_of mv = 0

-- All the lines of a run together, and the results that were recorded between a line and its reset.
unfoldable pub shown : {f : TestFrame} {ls : List Label} {s : System} → Reach f ls s → ℕ
shown here = 0
shown (next r (drive d)) = shown r + line_of d
shown (next r (run i lt on mv)) = shown r

unfoldable pub lost : {f : TestFrame} {ls : List Label} {s : System} → Reach f ls s → ℕ
lost here = 0
lost (next r (drive d)) = lost r
lost (next {s = s} r (run i lt on mv)) =
    if is_resetting s.control then lost r + result_of mv else lost r

-- The results of the second under way, where they are still to be shown.
abbrev pub to_show : System → ℕ
to_show s = if is_resetting s.control then 0 else s.statistic.total_count_ps

Move-results :
    {m m' : Shared} {p p' : Pc} {l : Label} (mv : Move m p l m' p')
    → m.statistic.total_count < 2 ^ 31
    → m.statistic.total_count_ps < 2 ^ 31
    → (m'.statistic.total_count ≡ m.statistic.total_count + result_of mv)
      × (m'.statistic.total_count_ps ≡ m.statistic.total_count_ps + result_of mv)
unfolding update_delay increase_success_count increase_failure_count
Move-results Move.init small small' = omega arith
Move-results settle small small' = ground arith
Move-results mv small small' = omega arith

Drive-results :
    {n : ℕ} {s t : System} {l : Label} (d : Drive n s l t)
    → s.statistic.total_count_ps < 2 ^ 31
    → (t.statistic.total_count ≡ s.statistic.total_count) × (to_show t + line_of d ≡ to_show s)
unfolding reset_ps report
Drive-results (no_case a e) small = ground (arith, e)
Drive-results (has_case a e) small = ground (arith, e)
Drive-results (create t e lt) small = ground (arith, e)
Drive-results (create_fails t e lt) small = ground (arith, e)
Drive-results (created e) small = ground (arith, e)
Drive-results (open_budget e a) small = ground (arith, e)
Drive-results (open_free e a) small = ground (arith, e)
Drive-results (start now e) small = ground (arith, e)
Drive-results (poll b l now e a) small = ground (arith, e)
Drive-results {s = s} (print b now r e a p) small =
    let printed : pos_part r.total_ps ≡ s.statistic.total_count_ps =
      rw (p, int_of_bits-eq_of_lt s.statistic.total_count_ps small) refl in
    ground (arith, e, printed)
Drive-results (print_nothing b now e a) small = ground (arith, e)
Drive-results (reset b now e) small = ground (arith, e)
Drive-results (exit b now e a) small = ground (arith, e)
Drive-results (keep b now e a q) small = ground (arith, e)
Drive-results (acquire b now e a q r) small = ground (arith, e)
Drive-results (refill b now e) small = ground (arith, e)

-- In a short run the counts of the results do not wrap.
counts-small :
    {f : TestFrame} {ls : List Label} {s : System}
    → Reach f ls s
    → length ls < 2 ^ 31
    → (s.statistic.total_count < 2 ^ 31) × (s.statistic.total_count_ps < 2 ^ 31)
counts-small {f} {s = s} r few =
    let (h, rec) = Reach-Recorded r in
    let (whole, second) = after-counts f.delay_threshold h (omega (arith, rec.of_steps)) in
    rw rec.of_calls (
      omega (arith, whole.of_total, whole.within, rec.of_steps),
      omega (arith, second.of_total, second.within, rec.of_steps, length-last_second-le h),
    )

-- Every result is in one line of a second, or it is lost: in a run of fewer than 2 ^ 31 steps the results
-- counted are those that the lines printed so far add up to, those that are still to be printed, and
-- those that threads recorded while the main thread stood between the printing of a line and the reset
-- that follows, which are in no line.
pub seconds-exact :
    {f : TestFrame} {ls : List Label} {s : System} (r : Reach f ls s)
    → length ls < 2 ^ 31
    → s.statistic.total_count ≡ shown r + to_show s + lost r
unfolding shown lost
seconds-exact here few = refl
seconds-exact (next {s = s} r (drive d)) few =
    let (same, moved) = Drive-results d (counts-small r (omega arith)).1 in
    omega (arith, same, moved, seconds-exact r (omega arith))
seconds-exact (next {s = s} r (run i lt on mv)) few =
    let (small, small_ps) = counts-small r (omega arith) in
    let (more, more_ps) = Move-results mv small small_ps in
    let before = seconds-exact r (omega arith) in ground (arith, more, more_ps, before)
