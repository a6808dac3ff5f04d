-- ===== src/Frame/Quota.antt =====
-- testframe.cpp: the repeat count. Each thread takes its turns by `cRepeatCount--`, which returns the
-- new count, and the main thread ends the run once the count is down to 0.
use test_frame.Prelude.{
  ℕ, ◌+◌, ◌^◌, ◌≤◌, ◌<◌, ◌≡◌, refl, List, arith, pos, pos_part, neg_part, int_pred_parts,
  is_neg_parts, total, total-update, total-le, total-ge, total-eq-zero, true,
}
use test_frame.Statistic.{increase_success_count, increase_failure_count, update_delay, reset_ps}
use test_frame.Frame.{TestFrame, all_sent}
use test_frame.Frame.Worker.{
  Shared, Pc, unborn, executing, settling, finished, Label, Move, count, quit,
}
use test_frame.Frame.System.{System, Drive, create, Step, drive, run, Reach, here, next, threads}
use test_frame.Frame.Threads.{IsFresh, Reach-IsFresh, Drive-total}

-- Threads that have taken a turn of which the result is not counted yet.
abbrev pub turns : Pc → ℕ
turns executing = 1
turns (settling rc) = 1
turns _ = 0

-- Threads that have found no turn left.
abbrev pub quitters : Pc → ℕ
quitters finished = 1
quitters _ = 0

-- Of `limit` turns some are left, some are counted and some are under way; below 0 the count goes
-- once for each thread that found no turn.
pub record IsQuota (limit under_way gone : ℕ) (m : Shared) : Type 0 where
  pub limited : m.repeat_count_const ≡ pos limit
  pub pending : pos_part m.repeat_count.ci_count + m.statistic.total_count + under_way ≡ limit
  pub over : neg_part m.repeat_count.ci_count ≡ gone

abbrev pub IsSmall : ℕ → Type 0
IsSmall n = n < 2 ^ 31

Move-IsQuota :
    (limit under_way gone under_way' gone' : ℕ) {m m' : Shared} {p p' : Pc} {l : Label}
    → Move m p l m' p'
    → IsSmall limit
    → 0 < limit
    → IsSmall gone
    → under_way' + turns p ≡ under_way + turns p'
    → gone' + quitters p ≡ gone + quitters p'
    → IsQuota limit under_way gone m
    → IsQuota limit under_way' gone' m'
unfolding update_delay increase_success_count increase_failure_count
Move-IsQuota x u g u' g' {m} (count a b) small some few eu eg q =
    ground (arith, int_pred_parts m.repeat_count.ci_count)
Move-IsQuota x u g u' g' {m} (quit a b) small some few eu eg q =
    ground (arith, int_pred_parts m.repeat_count.ci_count)
Move-IsQuota x u g u' g' (Move.uncounted a) small some few eu eg q = absurd (ground arith)
Move-IsQuota x u g u' g' mv small some few eu eg q = ground arith

Drive-IsQuota :
    (limit under_way gone : ℕ) {n : ℕ} {s t : System} {l : Label}
    → Drive n s l t
    → IsQuota limit under_way gone s.mem
    → IsQuota limit under_way gone t.mem
unfolding reset_ps
Drive-IsQuota x u g (create t e lt) q = q
Drive-IsQuota x u g d q = ground arith

-- The invariant at a state of the system.
abbrev pub HasQuota : ℕ → ℕ → System → Type 0
HasQuota limit n s = IsQuota limit (total turns n s.pc) (total quitters n s.pc) s.mem

pub quitters-le : (p : Pc) → quitters p ≤ 1
quitters-le p = ground arith

Step-HasQuota :
    (limit n : ℕ) {s t : System} {l : Label}
    → IsSmall limit
    → IsSmall n
    → 0 < limit
    → IsFresh n s
    → Step n s l t
    → HasQuota limit n s
    → HasQuota limit n t
Step-HasQuota x n {s} {t} small few some fresh (drive d) q =
    rw
      (
        Drive-total turns refl (λ p. ground arith) fresh d,
        Drive-total quitters refl (λ p. ground arith) fresh d,
      )
      (Drive-IsQuota x (total turns n s.pc) (total quitters n s.pc) d q)
Step-HasQuota x n {s} small few some fresh (run i {p = p'} lt on mv) q =
    Move-IsQuota x (total turns n s.pc) (total quitters n s.pc) _ _ mv small some
      (omega (arith, total-le quitters quitters-le n s.pc)) (total-update turns n s.pc i p' lt)
      (total-update quitters n s.pc i p' lt) q

Reach-HasQuota :
    (limit : ℕ) {f : TestFrame} {ls : List Label} {s : System}
    → IsSmall limit
    → IsSmall (threads f)
    → 0 < limit
    → f.repeat_count_const ≡ pos limit
    → f.repeat_count.ci_count ≡ pos limit
    → Reach f ls s
    → HasQuota limit (threads f) s
Reach-HasQuota x {f} small few some ec er here = record {
  limited = ec;
  pending = ground (arith, total-eq-zero turns (threads f) (λ _. unborn) (λ _. refl));
  over = ground (arith, total-eq-zero quitters (threads f) (λ _. unborn) (λ _. refl));
}
Reach-HasQuota x small few some ec er (next r st) =
    Step-HasQuota x _ small few some (Reach-IsFresh r) st (Reach-HasQuota x small few some ec er r)

-- A frame set up by `SetRepeatCount` with a positive count, and fewer than 2 ^ 31 threads.
pub record Limits (f : TestFrame) (limit : ℕ) : Type 0 where
  pub small : IsSmall limit
  pub few : IsSmall (threads f)
  pub some_turn : 0 < limit
  pub set_const : f.repeat_count_const ≡ pos limit
  pub set_count : f.repeat_count.ci_count ≡ pos limit

module _ {f : TestFrame} (limit : ℕ) (c : Limits f limit) {ls : List Label} {s : System} where
  pub quota : Reach f ls s → HasQuota limit (threads f) s
  quota r = Reach-HasQuota limit c.small c.few c.some_turn c.set_const c.set_count r

  -- In every interleaving, at every moment, where the repeat count is positive and it and the number of
  -- threads are below 2 ^ 31: the test cases whose result is counted, those under way and the turns
  -- left in the repeat count add up to the count that was set.
  pub turns-exact :
      Reach f ls s
      → s.statistic.total_count + total turns (threads f) s.pc + pos_part s.repeat_count.ci_count
        ≡ limit
  turns-exact r = let q = quota r in omega arith

  -- Where the repeat count is positive and it and the number of threads are below 2 ^ 31: once a thread
  -- has left its loop because the count was used up, and no test case is under way, exactly as many
  -- test cases have been counted as were asked for.
  pub finished-exact :
      Reach f ls s
      → (i : ℕ) → i < threads f
      → s.pc i ≡ finished
      → total turns (threads f) s.pc ≡ 0
      → s.statistic.total_count ≡ limit
  finished-exact r i lt e none_left =
      let q = quota r in
      ground (arith, total-ge quitters (threads f) s.pc i lt, is_neg_parts s.repeat_count.ci_count)

  -- Where the repeat count is positive and it and the number of threads are below 2 ^ 31: when the main
  -- thread finds all sent, which ends the program, the results counted and the test cases under way,
  -- whose results are not, make up the count that was set.
  pub all_sent-uncounted :
      Reach f ls s
      → all_sent s.frame ≡ true
      → s.statistic.total_count + total turns (threads f) s.pc ≡ limit
  all_sent-uncounted r e = let q = quota r in ground arith
