-- ===== src/Program/Counts.antt =====
-- What the printed numbers of successes and failures say of the responses.
use test_frame.Prelude.{
  ℕ, ◌+◌, ◌^◌, ◌≤◌, ◌<◌, ◌≡◌, refl, ap, inl, inr, Bool, false, Bool-cases, ◌&&◌, if◌then◌else◌, ℤ,
  pos, int_of_bits-eq_of_lt, total_mono, List, [], ◌∷◌, length, Bytes, contains, arith, total,
  total-update, total-eq-zero,
}
use test_frame.Statistic.{
  TestFrameStatistic, increase_success_count, increase_failure_count, update_delay, reset_ps,
  report,
}
use test_frame.Frame.{TestFrame}
use test_frame.Frame.Worker.{Shared, Pc, unborn, settling, Label, Move, is_zero}
use test_frame.Frame.System.{System, Drive, create, threads}
use test_frame.Frame.Record.{unsettled}
use test_frame.Frame.Threads.{IsFresh, Reach-IsFresh, Drive-total}
use test_frame.Client.{Outcome, returns, waiting, out_of_bounds, tcp_iot, Network, Client}
use test_frame.TestCase.{LogFile, TestCaseIot, Tested, ended, log, judge, execute}
use test_frame.Program.{
  Process, Act, silent, prepared, tested, calls_case, Turn, main, work, init, prepare, test, Ran,
  called, and_then,
}
use test_frame.Program.Refines.{Ran-Reach}

-- Whether `tcp_iot` has returned SDK_SUCCESS with a response that holds the text that is looked for.
abbrev pub answers : Bytes → Outcome → Bool
answers assert (returns code rsp) = is_zero code && contains assert rsp
answers assert waiting = false
answers assert out_of_bounds = false

-- How many of the requests of `Execute` ended with the text, and how many did not.
abbrev pub passed : Bytes → List Act → ℕ
passed assert [] = 0
passed assert (tested stamp o ∷ acts) =
    let rest = passed assert acts in if answers assert o then rest + 1 else rest
passed assert (a ∷ acts) = passed assert acts

abbrev pub missed : Bytes → List Act → ℕ
missed assert [] = 0
missed assert (tested stamp o ∷ acts) =
    let rest = missed assert acts in if answers assert o then rest else rest + 1
missed assert (a ∷ acts) = missed assert acts

-- Results that are not counted yet, those of 0 and the others.
abbrev pub good : Pc → ℕ
good (settling rc) = if is_zero rc then 1 else 0
good _ = 0

abbrev pub bad : Pc → ℕ
bad (settling rc) = if is_zero rc then 0 else 1
bad _ = 0

-- The counts, and the results to come, are those of the requests with and without the text.
pub record IsCounted (good_ones bad_ones hits misses : ℕ) (s : TestFrameStatistic) : Type 0 where
  pub successes : s.success_count + good_ones ≡ hits
  pub failures : s.failure_count + bad_ones ≡ misses

Move-IsCounted :
    (g b g' b' hits misses : ℕ) {m m' : Shared} {p p' : Pc} {l : Label}
    → Move m p l m' p'
    → calls_case p ≡ false
    → hits < 2 ^ 31
    → misses < 2 ^ 31
    → g' + good p ≡ g + good p'
    → b' + bad p ≡ b + bad p'
    → IsCounted g b hits misses m.statistic
    → IsCounted g' b' hits misses m'.statistic
unfolding increase_success_count increase_failure_count
Move-IsCounted g b g' b' h k (Move.execute rc begin end) free sh sk eg eb c = absurd (cc)
Move-IsCounted g b g' b' h k mv free sh sk eg eb c = ground arith

Drive-IsCounted :
    (g b hits misses : ℕ) {n : ℕ} {s t : System} {l : Label}
    → Drive n s l t
    → IsCounted g b hits misses s.statistic
    → IsCounted g b hits misses t.statistic
unfolding reset_ps
Drive-IsCounted g b h k (create t e lt) c = c
Drive-IsCounted g b h k d c = ground arith

judge-answers :
    (tc : TestCaseIot) (stamp : Bytes) (l l' : LogFile) (rc : ℤ) (o : Outcome)
    → judge tc tc.assert stamp l o ≡ ended rc l'
    → is_zero rc ≡ answers tc.assert o
unfolding judge log
judge-answers tc stamp l l' rc waiting h = absurd (cc)
judge-answers tc stamp l l' rc out_of_bounds h = absurd (cc)
judge-answers tc stamp l l' rc (returns code rsp) h = ground arith

execute-answers :
    (tc : TestCaseIot) (net : Network) (stamp : Bytes) (c c' : Client) (l l' : LogFile) (rc : ℤ)
    → execute tc net stamp c l ≡ (c', ended rc l')
    → is_zero rc ≡ answers tc.assert (tcp_iot c net tc.req []).1
unfolding execute
execute-answers tc net stamp c c' l l' rc h =
    judge-answers tc stamp l l' rc (tcp_iot c net tc.req []).1 (ap (λ (x : Client × Tested). x.1) h)

passed-add-missed-le :
    (assert : Bytes) (acts : List Act) → passed assert acts + missed assert acts ≤ length acts
passed-add-missed-le assert [] = omega arith
passed-add-missed-le assert (silent l ∷ acts) = omega (arith, passed-add-missed-le assert acts)
passed-add-missed-le assert (prepared stamp o ∷ acts) =
    omega (arith, passed-add-missed-le assert acts)
passed-add-missed-le assert (tested stamp o ∷ acts) =
    ground (arith, passed-add-missed-le assert acts)

abbrev pub HasCounts : Bytes → ℕ → List Act → Process → Type 0
HasCounts assert n acts p =
    IsCounted (total good n p.pc) (total bad n p.pc) (passed assert acts) (missed assert acts)
      p.statistic

Turn-HasCounts :
    {tc : TestCaseIot} {n : ℕ} {p q : Process} {a : Act} (acts : List Act)
    → IsFresh n p.sys
    → length acts < 2 ^ 31
    → Turn tc n p a q
    → HasCounts tc.assert n acts p
    → HasCounts tc.assert n (a ∷ acts) q
unfolding update_delay
Turn-HasCounts {tc} {n} {p} acts fresh few (main d) c =
    rw
      (
        Drive-total good refl (λ x. ground arith) fresh d,
        Drive-total bad refl (λ x. ground arith) fresh d,
      )
      (Drive-IsCounted (total good n p.pc) (total bad n p.pc) (passed tc.assert acts)
        (missed tc.assert acts) d c)
Turn-HasCounts {tc} {n} {p} acts fresh few (work i {q = q} lt on free mv) c =
    let le = passed-add-missed-le tc.assert acts in
    Move-IsCounted (total good n p.pc) (total bad n p.pc) _ _ (passed tc.assert acts)
      (missed tc.assert acts) mv free (omega arith) (omega arith) (total-update good n p.pc i q lt)
      (total-update bad n p.pc i q lt) c
Turn-HasCounts {tc} {n} {p} acts fresh few (init i lt on e) c =
    let g = rw e at (total-update good n p.pc i Pc.entering lt) in
    let b = rw e at (total-update bad n p.pc i Pc.entering lt) in
    record { successes = omega (arith, c.successes); failures = omega (arith, c.failures) }
Turn-HasCounts {tc} {n} {p} acts fresh few (prepare i net stamp {rc = rc} lt on e h) c =
    let g = rw e at (total-update good n p.pc i (Pc.gated rc) lt) in
    let b = rw e at (total-update bad n p.pc i (Pc.gated rc) lt) in
    record { successes = omega (arith, c.successes); failures = omega (arith, c.failures) }
Turn-HasCounts {tc} {n} {p} acts fresh few
      (test i net stamp begin end {rc = rc} {c = c'} {l = l'} lt on e h) c =
    let g = rw e at (total-update good n p.pc i (settling rc) lt) in
    let b = rw e at (total-update bad n p.pc i (settling rc) lt) in
    let same = execute-answers tc net stamp (p.client i) c' p.log_file l' rc h in
    elim (Bool-cases (is_zero rc)) [
      | inl z ↦
          let one_more = rw z at g in
          let no_more = rw z at b in
          rw (← same, z)
            (record {
              successes = omega (arith, c.successes);
              failures = omega (arith, c.failures);
            })
      | inr z ↦
          let no_more = rw z at g in
          let one_more = rw z at b in
          rw (← same, z)
            (record {
              successes = omega (arith, c.successes);
              failures = omega (arith, c.failures);
            })
    ]

pub Ran-HasCounts :
    {tc : TestCaseIot} {f : TestFrame} {l : LogFile} {acts : List Act} {p : Process}
    → Ran tc f l acts p
    → length acts < 2 ^ 31
    → HasCounts tc.assert (threads f) acts p
Ran-HasCounts {f = f} called few = record {
  successes = omega (arith, total-eq-zero good (threads f) (λ _. unborn) (λ _. refl));
  failures = omega (arith, total-eq-zero bad (threads f) (λ _. unborn) (λ _. refl));
}
Ran-HasCounts (and_then {acts = acts} r t) few =
    Turn-HasCounts acts (Reach-IsFresh (Ran-Reach r)) (omega arith) t
      (Ran-HasCounts r (omega arith))

-- The printed numbers are what they are meant to be: in a run of fewer than 2 ^ 31 steps, however the
-- threads interleave and whatever the network answers, at a moment at which no thread stands between
-- the two calls of TestFrameThread::Execute, the printed number of successes is the number of requests
-- for which `tcp_iot` returned SDK_SUCCESS with a response that holds the text looked for, and the
-- printed number of failures is that of the other requests that have ended.
pub report-answers :
    {tc : TestCaseIot} {f : TestFrame} {l : LogFile} {acts : List Act} {p : Process}
    → Ran tc f l acts p
    → length acts < 2 ^ 31
    → total unsettled (threads f) p.pc ≡ 0
    → ((report p.statistic).success ≡ pos (passed tc.assert acts))
      × ((report p.statistic).failure ≡ pos (missed tc.assert acts))
unfolding report
report-answers {tc} {f} {l} {acts} {p} r few settled =
    let c = Ran-HasCounts r few in
    let le = passed-add-missed-le tc.assert acts in
    let no_good : total good (threads f) p.pc ≡ 0 =
      omega (arith, total_mono good unsettled (λ x. ground arith) (threads f) p.pc) in
    let no_bad : total bad (threads f) p.pc ≡ 0 =
      omega (arith, total_mono bad unsettled (λ x. ground arith) (threads f) p.pc) in
    let hits : p.statistic.success_count ≡ passed tc.assert acts = omega (arith, c.successes) in
    let misses : p.statistic.failure_count ≡ missed tc.assert acts = omega (arith, c.failures) in
    (
      rw hits (int_of_bits-eq_of_lt (passed tc.assert acts) (omega arith)),
      rw misses (int_of_bits-eq_of_lt (missed tc.assert acts) (omega arith)),
    )
