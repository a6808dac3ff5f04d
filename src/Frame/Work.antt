-- ===== src/Frame/Work.antt =====
-- testframe.cpp: how much the threads can do in a run with a repeat count.
use test_frame.Prelude.{
  ℕ, ◌+◌, ◌*◌, ◌^◌, ◌≤◌, ◌<◌, ◌≡◌, refl, true, false, List, arith, pos_part, neg_part, is_pos,
  int_pred_parts, ap, total, total_mono, total-compose, total-update, total-le, zero, suc,
}
use test_frame.Frame.{TestFrame}
use test_frame.Frame.Worker.{
  Shared, Pc, unborn, born, entering, preparing, gated, called, refused, head, metering, starved,
  resumed, taking, checking, counting, executing, settling, finished, Label, Move, count, quit,
}
use test_frame.Frame.System.{
  System, Drive, create, start, refill, drive, run, Reach, here, next, wake, threads,
}
use test_frame.Frame.Threads.{Reach-Settings, Reach-IsFresh, IsFresh}
use test_frame.Frame.Quota.{Limits, quota, quitters, quitters-le}

-- The steps that the threads have made.
unfoldable pub moves : {f : TestFrame} {ls : List Label} {s : System} → Reach f ls s → ℕ
moves here = 0
moves (next r (drive d)) = moves r
moves (next r (run i lt on mv)) = moves r + 1

-- How many steps a thread has before it at most, to its next turn or to its end.
abbrev pub rank : Pc → ℕ
rank unborn = 10
rank born = 9
rank entering = 8
rank preparing = 7
rank (gated rc) = 6
rank (called rc) = 5
rank refused = 0
rank head = 4
rank metering = 9
rank starved = 8
rank resumed = 7
rank taking = 6
rank checking = 5
rank counting = 3
rank executing = 6
rank (settling rc) = 5
rank finished = 0

-- A step of a thread leaves less to do; a turn pays for the way to the next one.
Move-rank :
    {m m' : Shared} {p p' : Pc} {l : Label}
    → Move m p l m' p'
    → is_pos m.frequence_const ≡ false
    → is_pos m.repeat_count_const ≡ true
    → pos_part m.repeat_count.ci_count < 2 ^ 31
    → neg_part m.repeat_count.ci_count < 2 ^ 31
    → rank p' + 4 * pos_part m'.repeat_count.ci_count + 1
      ≤ rank p + 4 * pos_part m.repeat_count.ci_count
Move-rank {m} (count a b) free counted small small' =
    ground (arith, int_pred_parts m.repeat_count.ci_count)
Move-rank {m} (quit a b) free counted small small' =
    ground (arith, int_pred_parts m.repeat_count.ci_count)
Move-rank (Move.uncounted a) free counted small small' = absurd (cc)
Move-rank (Move.meter a b) free counted small small' = absurd (cc)
Move-rank mv free counted small small' = ground arith

rank-wake-le : (p : Pc) → rank (wake p) ≤ rank p
rank-wake-le p = ground arith

-- The main thread gives a thread nothing more to do.
Drive-rank :
    {n : ℕ} {s t : System} {l : Label}
    → Drive n s l t
    → IsFresh n s
    → (total rank n t.pc ≤ total rank n s.pc) × (t.repeat_count.ci_count ≡ s.repeat_count.ci_count)
Drive-rank {n} {s} (create t e lt) fresh =
    let e' : s.pc t ≡ unborn = fresh t (rw e (omega arith)) in
    (omega (arith, rw e' at (total-update rank n s.pc t born lt)), refl)
Drive-rank {n} {s} (start now e) fresh = (
  omega (
    arith,
    total-compose rank wake n s.pc,
    total_mono (λ p. rank (wake p)) rank rank-wake-le n s.pc,
  ),
  refl,
)
Drive-rank {n} {s} (refill b now e) fresh = (
  omega (
    arith,
    total-compose rank wake n s.pc,
    total_mono (λ p. rank (wake p)) rank rank-wake-le n s.pc,
  ),
  refl,
)
Drive-rank d fresh = (omega arith, refl)

total-rank-le : (n : ℕ) → total rank n (λ _. unborn) ≤ 10 * n
unfolding total
total-rank-le zero = omega arith
total-rank-le (suc n) = omega (arith, total-rank-le n)

module _ {f : TestFrame} (limit : ℕ) (c : Limits f limit)
    (free : is_pos f.frequence_const ≡ false) where
  moves-rank :
      {ls : List Label} {s : System} (r : Reach f ls s)
      → moves r + total rank (threads f) s.pc + 4 * pos_part s.repeat_count.ci_count
        ≤ 10 * threads f + 4 * limit
  unfolding moves
  moves-rank here = omega (arith, total-rank-le (threads f), ap pos_part c.set_count)
  moves-rank (next {s = s} {t = t} r (drive d)) =
      let (le, same) = Drive-rank d (Reach-IsFresh r) in
      omega (arith, moves-rank r, le, ap pos_part same)
  moves-rank (next {s = s} r (run i {p = p} lt on mv)) =
      let q = quota limit c r in
      let v = Reach-Settings r in
      let still_free : is_pos s.frequence_const ≡ false = rw v.same_frequence free in
      let counted : is_pos s.repeat_count_const ≡ true = ground (arith, q.limited, c.some_turn) in
      let gone = total-le quitters quitters-le (threads f) s.pc in
      let less =
        Move-rank mv still_free counted (omega (arith, q.pending, c.small))
          (omega (arith, q.over, c.few, gone)) in
      omega (arith, moves-rank r, less, total-update rank (threads f) s.pc i p lt)

  -- The work of a run is bounded: with a repeat count (positive, and like the number of threads below
  -- 2 ^ 31) and without flow control, the threads make at most ten steps each, and four for each test
  -- case that was asked for, however they interleave and whatever the main thread does.
  pub moves-le :
      {ls : List Label} {s : System} (r : Reach f ls s) → moves r ≤ 10 * threads f + 4 * limit
  moves-le r = omega (arith, moves-rank r)
