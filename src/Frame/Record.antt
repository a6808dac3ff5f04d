-- ===== src/Frame/Record.antt =====
-- testframe.cpp: what the threads of a run do to the statistics, as calls of TestFrameStatistic.
use test_frame.Prelude.{
  ℕ, suc, ◌+◌, ◌-◌, ◌≤◌, ◌<◌, ◌^◌, ◌≡◌, refl, ap, ◌∙◌, inl, inr, Bool-cases, ℤ, pos, List, [], ◌∷◌,
  length, arith, total, total-update, total-eq-zero,
}
use test_frame.Statistic.{TestFrameStatistic, reset_ps, is_late, report}
use test_frame.Statistic.History.{
  Call, delayed, succeeded, failed, printed, apply, after, successes, failures, late_delays, delays,
}
use test_frame.Statistic.Summary.{after-counts}
use test_frame.Frame.{TestFrame, delay}
use test_frame.Frame.Worker.{Shared, Pc, unborn, settling, Label, Move, is_zero, settle_result}
use test_frame.Frame.System.{System, Drive, reset, Step, drive, run, Reach, here, next, threads}
use test_frame.Frame.Threads.{IsFresh, Reach-IsFresh, Drive-total}

-- Threads whose delay is recorded and whose result is not.
abbrev pub unsettled : Pc → ℕ
unsettled (settling rc) = 1
unsettled _ = 0

-- The statistics come from the calls `h`, at most one in each of the `steps`, and each recorded delay
-- has its result, or it is one of the `pending`.
pub record IsRecord (t : ℤ) (pending steps : ℕ) (h : List Call) (m : Shared) : Type 0 where
  pub same_threshold : m.delay_threshold ≡ t
  pub of_calls : m.statistic ≡ after t h
  pub of_results : length (delays h) ≡ successes h + failures h + pending
  pub of_steps : length h ≤ steps

Recorded : ℤ → ℕ → ℕ → Shared → Type 0
Recorded t pending steps m = (h : List Call) × IsRecord t pending steps h m

settle-apply :
    (t rc : ℤ) (h : List Call)
    → (c : Call) × (settle_result rc (after t h) ≡ after t (c ∷ h))
      × (delays (c ∷ h) ≡ delays h)
      × (successes (c ∷ h) + failures (c ∷ h) ≡ successes h + failures h + 1)
unfolding after apply
settle-apply t rc h = elim (Bool-cases (is_zero rc)) [
  | inl e ↦ (succeeded, rw e, refl, omega arith)
  | inr e ↦ (failed, rw e, refl, omega arith)
]

Move-Recorded :
    (t : ℤ) (a a' k : ℕ) {m m' : Shared} {p p' : Pc} {l : Label}
    → Move m p l m' p'
    → a' + unsettled p ≡ a + unsettled p'
    → Recorded t a k m
    → Recorded t a' (suc k) m'
unfolding after apply Recorded
Move-Recorded t a a' k {m} (Move.execute rc b e) eq (h, r) = (
  delayed (delay b e) ∷ h,
  record {
    same_threshold = r.same_threshold;
    of_calls = rw (r.same_threshold, r.of_calls);
    of_results = omega (arith, r.of_results);
    of_steps = omega (arith, r.of_steps);
  },
)
Move-Recorded t a a' k (Move.settle {rc}) eq (h, r) =
    let s = settle-apply t rc h in
    (
      s.0 ∷ h,
      record {
        same_threshold = r.same_threshold;
        of_calls = ap (settle_result rc) r.of_calls ∙ s.1;
        of_results = rw s.2 (omega (arith, r.of_results, s.3));
        of_steps = omega (arith, r.of_steps);
      },
    )
Move-Recorded t a a' k mv e (h, r) = (
  h,
  record {
    same_threshold = ground (arith, r.same_threshold);
    of_calls = ground (arith, r.of_calls);
    of_results = ground (arith, r.of_results);
    of_steps = omega (arith, r.of_steps);
  },
)

Drive-Recorded :
    (t : ℤ) (a k : ℕ) {n : ℕ} {s u : System} {l : Label}
    → Drive n s l u
    → Recorded t a k s.mem
    → Recorded t a (suc k) u.mem
unfolding after apply Recorded
Drive-Recorded t a k (reset b now e) (h, r) = (
  printed ∷ h,
  record {
    same_threshold = r.same_threshold;
    of_calls = ap reset_ps r.of_calls;
    of_results = r.of_results;
    of_steps = omega (arith, r.of_steps);
  },
)
Drive-Recorded t a k d (h, r) = (
  h,
  record {
    same_threshold = ground (arith, r.same_threshold);
    of_calls = ground (arith, r.of_calls);
    of_results = ground (arith, r.of_results);
    of_steps = omega (arith, r.of_steps);
  },
)

Step-Recorded :
    (t : ℤ) (k : ℕ) {n : ℕ} {s u : System} {l : Label}
    → IsFresh n s
    → Step n s l u
    → Recorded t (total unsettled n s.pc) k s.mem
    → Recorded t (total unsettled n u.pc) (suc k) u.mem
Step-Recorded t k {n} {s} fresh (drive d) q =
    rw (Drive-total unsettled refl (λ p. ground arith) fresh d)
      (Drive-Recorded t (total unsettled n s.pc) k d q)
Step-Recorded t k {n} {s} fresh (run i {p = p'} lt on mv) q =
    Move-Recorded t (total unsettled n s.pc) _ k mv (total-update unsettled n s.pc i p' lt) q

-- The statistics of a run: in every state that any interleaving reaches, they are what some sequence
-- of calls makes of new statistics, with the threshold that was set, and the delays recorded in it are
-- as many as the results, and the threads between the two calls of `Execute`, together. No step makes more than one call.
pub Reach-Recorded :
    {f : TestFrame} {ls : List Label} {s : System}
    → Reach f ls s
    → (h : List Call) × IsRecord f.delay_threshold
        (total unsettled (threads f) s.pc)
        (length ls)
        h
        s.mem
unfolding Recorded after
Reach-Recorded {f} here = (
  [],
  record {
    same_threshold = refl;
    of_calls = refl;
    of_results = rw (total-eq-zero unsettled (threads f) (λ _. unborn) (λ _. refl));
    of_steps = omega arith;
  },
)
Reach-Recorded {f} (next {ls} r st) =
    Step-Recorded f.delay_threshold (length ls) (Reach-IsFresh r) st (Reach-Recorded r)

late_delays-le : (t : ℤ) (h : List Call) → late_delays t h ≤ length (delays h)
late_delays-le t [] = omega arith
late_delays-le t (delayed d ∷ h) = elim (Bool-cases (is_late t d)) [
  | inl e ↦ rw e (omega (arith, late_delays-le t h))
  | inr e ↦ rw e (omega (arith, late_delays-le t h))
]
late_delays-le t (succeeded ∷ h) = late_delays-le t h
late_delays-le t (failed ∷ h) = late_delays-le t h
late_delays-le t (printed ∷ h) = late_delays-le t h

-- The report at a moment at which no thread stands between the two calls of `Execute`: after fewer
-- than 2 ^ 31 steps, where something is counted, the late delays are no more than the results, and
-- the share in time is their difference over the results, with no wrap-around.
pub report-settled :
    {f : TestFrame} {ls : List Label} {s : System}
    → Reach f ls s
    → length ls < 2 ^ 31
    → total unsettled (threads f) s.pc ≡ 0
    → 0 < s.statistic.total_count
    → (s.statistic.timeout_count ≤ s.statistic.total_count)
      × ((report s.statistic).total ≡ pos s.statistic.total_count)
      × ((report s.statistic).health ≡ record {
        part = pos (s.statistic.total_count - s.statistic.timeout_count);
        whole = pos s.statistic.total_count;
      })
unfolding report
report-settled {f} {ls} {s} reach few settled some_result =
    let (h, r) = Reach-Recorded reach in
    let c = (after-counts f.delay_threshold h (omega (arith, r.of_steps))).0 in
    let total_count : s.statistic.total_count ≡ successes h + failures h =
      ap (λ (x : TestFrameStatistic). x.total_count) r.of_calls ∙ c.of_total in
    let late : s.statistic.timeout_count ≡ late_delays f.delay_threshold h =
      ap (λ (x : TestFrameStatistic). x.timeout_count) r.of_calls ∙ c.of_timeouts in
    let le : late_delays f.delay_threshold h ≤ length (delays h) =
      late_delays-le f.delay_threshold h in
    let fits : s.statistic.timeout_count ≤ s.statistic.total_count = omega (arith, r.of_results) in
    let small : s.statistic.total_count < 2 ^ 31 = omega (arith, r.of_steps, c.within) in
    (fits, ground arith, ground arith)
