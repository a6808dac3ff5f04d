-- ===== src/Statistic/History.antt =====
-- The calls that TestFrameStatistic has received, the last one first, and what they amount to.
use test_frame.Prelude.{
  ℕ, ◌+◌, if◌then◌else◌, ℤ, pos_part, ◌≤ℤ◌, List, [], ◌∷◌, ◌≡◌, ◌⊎◌, length, ◌≤◌, arith,
}
use test_frame.Statistic.{
  TestFrameStatistic, new_statistic, increase_success_count, increase_failure_count, update_delay,
  reset_ps, is_late,
}

pub data Call : Type 0 where
  delayed : ℤ → Call  -- UpdateDelay
  succeeded : Call  -- IncreaseSuccessCount
  failed : Call  -- IncreaseFailureCount
  printed : Call  -- the reset at the end of Output

unfoldable pub apply : ℤ → Call → TestFrameStatistic → TestFrameStatistic
unfolding update_delay increase_success_count increase_failure_count reset_ps
apply threshold (delayed d) s = update_delay threshold d s
apply threshold succeeded s = increase_success_count s
apply threshold failed s = increase_failure_count s
apply threshold printed s = reset_ps s

-- The state after the calls.
unfoldable pub after : ℤ → List Call → TestFrameStatistic
unfolding apply
after threshold [] = new_statistic
after threshold (c ∷ h) = apply threshold c (after threshold h)

-- The calls since the last `printed`: those of the second under way.
abbrev pub last_second : List Call → List Call
last_second [] = []
last_second (printed ∷ h) = []
last_second (delayed d ∷ h) = delayed d ∷ last_second h
last_second (succeeded ∷ h) = succeeded ∷ last_second h
last_second (failed ∷ h) = failed ∷ last_second h

abbrev pub successes : List Call → ℕ
successes [] = 0
successes (succeeded ∷ h) = successes h + 1
successes (_ ∷ h) = successes h

abbrev pub failures : List Call → ℕ
failures [] = 0
failures (failed ∷ h) = failures h + 1
failures (_ ∷ h) = failures h

abbrev pub late_delays : ℤ → List Call → ℕ
late_delays t [] = 0
late_delays t (delayed d ∷ h) = if is_late t d then late_delays t h + 1 else late_delays t h
late_delays t (_ ∷ h) = late_delays t h

abbrev pub delays : List Call → List ℤ
delays [] = []
delays (delayed d ∷ h) = d ∷ delays h
delays (_ ∷ h) = delays h

abbrev pub sum : List ℤ → ℕ
sum [] = 0
sum (d ∷ ds) = sum ds + pos_part d

-- No value of the list exceeds `bound`, or falls below it.
abbrev pub AtMost : ℤ → List ℤ → Type 0
AtMost bound [] = Unit
AtMost bound (d ∷ ds) = (d ≤ℤ bound) × AtMost bound ds

abbrev pub AtLeast : ℤ → List ℤ → Type 0
AtLeast bound [] = Unit
AtLeast bound (d ∷ ds) = (bound ≤ℤ d) × AtLeast bound ds

abbrev pub Occurs : ℤ → List ℤ → Type 0
Occurs z [] = ⊥
Occurs z (d ∷ ds) = (z ≡ d) ⊎ Occurs z ds

pub AtMost-mono : (a b : ℤ) (ds : List ℤ) → a ≤ℤ b → AtMost a ds → AtMost b ds
AtMost-mono a b [] h m = tt
AtMost-mono a b (d ∷ ds) h m = (omega arith, AtMost-mono a b ds h m.1)

pub AtLeast-mono : (a b : ℤ) (ds : List ℤ) → b ≤ℤ a → AtLeast a ds → AtLeast b ds
AtLeast-mono a b [] h m = tt
AtLeast-mono a b (d ∷ ds) h m = (omega arith, AtLeast-mono a b ds h m.1)

pub length-last_second-le : (h : List Call) → length (last_second h) ≤ length h
length-last_second-le [] = omega arith
length-last_second-le (printed ∷ h) = omega arith
length-last_second-le (delayed d ∷ h) = omega (arith, length-last_second-le h)
length-last_second-le (succeeded ∷ h) = omega (arith, length-last_second-le h)
length-last_second-le (failed ∷ h) = omega (arith, length-last_second-le h)
