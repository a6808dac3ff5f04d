-- ===== src/Frame/Rate.antt =====
-- testframe.cpp: the flow control. `cFrequence` is the budget of the second: the main thread sets it
-- under `cLock`, each thread takes from it under `cLock`, and waits once it is below 0.
use test_frame.Prelude.{
  ℕ, ◌+◌, ◌≤◌, ◌<◌, ◌≡◌, ◌⊎◌, inl, inr, refl, true, false, List, [], ◌∷◌, arith, pos, pos_part,
  neg_part, is_neg, int_pred_parts, is_neg_parts, update, total, total-update, total-le,
  total-eq-zero, total_mono, total-compose,
}
use test_frame.Frame.{TestFrame}
use test_frame.Frame.Worker.{
  Shared, Pc, unborn, checking, taking, resumed, Label, quiet, refilled, granted, early, Move,
}
use test_frame.Frame.System.{
  System, Drive, create, Step, drive, run, Reach, here, next, threads, wake,
}
use test_frame.Frame.Threads.{Reach-IsFresh, Drive-total}
use test_frame.Frame.Quota.{IsSmall}
use test_frame.Frame.Lock.{holders, Reach-HasLock, started, NoEarly, NoEarly-tail, Reach-barrier}

-- The packets let through since the budget was last set.
abbrev pub grants : List Label → ℕ
grants [] = 0
grants (refilled ∷ ls) = 0
grants (granted ∷ ls) = grants ls + 1
grants (quiet ∷ ls) = grants ls
grants (early ∷ ls) = grants ls

-- Threads between `cFrequence--` and the double check.
abbrev pub checkers : Pc → ℕ
checkers checking = 1
checkers _ = 0

-- Threads that go on to `cFrequence--` whatever it is by then.
abbrev pub takers : Pc → ℕ
takers resumed = 1
takers taking = 1
takers _ = 0

-- With `given` packets let through, `c` threads at the double check and `r` threads on their way to
-- the budget, of `n` threads.
pub record IsRate (limit given c r n : ℕ) (m : Shared) : Type 0 where
  pub metered : m.frequence_const ≡ pos limit
  pub within : given ≤ limit
  pub left :
      (is_neg m.frequence.ci_count ≡ true)
      ⊎ ((is_neg m.frequence.ci_count ≡ false)
          × (pos_part m.frequence.ci_count + given + c ≤ limit))
  pub bounded : neg_part m.frequence.ci_count + r ≤ n

Move-IsRate :
    (limit c r n c' r' : ℕ) (ls : List Label) {m m' : Shared} {p p' : Pc} {l : Label}
    → Move m p l m' p'
    → NoEarly (l ∷ ls)
    → IsSmall limit
    → IsSmall n
    → 0 < limit
    → c' + checkers p ≡ c + checkers p'
    → r' + takers p ≡ r + takers p'
    → r' ≤ n
    → IsRate limit (grants ls) c r n m
    → IsRate limit (grants (l ∷ ls)) c' r' n m'
Move-IsRate x c r n c' r' ls {m} Move.take_one ne small few some ec er le q =
    ground (arith, int_pred_parts m.frequence.ci_count, is_neg_parts m.frequence.ci_count)
Move-IsRate x c r n c' r' ls {m} (Move.grant a) ne small few some ec er le q = ground arith
Move-IsRate x c r n c' r' ls {m} (Move.retry a) ne small few some ec er le q =
    ground (arith, is_neg_parts m.frequence.ci_count)
Move-IsRate x c r n c' r' ls {m} (Move.go_on a) ne small few some ec er le q =
    ground (arith, is_neg_parts m.frequence.ci_count)
Move-IsRate x c r n c' r' ls {m} (Move.starve a) ne small few some ec er le q = ground arith
Move-IsRate x c r n c' r' ls {m} (Move.start_early) ne small few some ec er le q = absurd ne
Move-IsRate x c r n c' r' ls {m} (Move.resume_early) ne small few some ec er le q = absurd ne
Move-IsRate x c r n c' r' ls {m} (Move.unmetered a) ne small few some ec er le q = ground arith
Move-IsRate x c r n c' r' ls {m} mv ne small few some ec er le q = ground arith

abbrev pub HasRate : ℕ → ℕ → List Label → System → Type 0
HasRate limit n ls s =
    IsRate limit (grants ls) (total checkers n s.pc) (total takers n s.pc) n s.mem

takers-le : (p : Pc) → takers p ≤ 1
takers-le p = ground arith

checkers-le_holders : (p : Pc) → checkers p ≤ holders p
checkers-le_holders p = ground arith

checkers-le_started : (p : Pc) → checkers p ≤ started p
checkers-le_started p = ground arith

Drive-IsRate :
    (limit c r n r' : ℕ) (ls : List Label) {s t : System} {l : Label}
    → Drive n s l t
    → IsSmall limit
    → (l ≡ refilled → c ≡ 0)
    → (l ≡ refilled) ⊎ (r' ≤ r)
    → r' ≤ n
    → IsRate limit (grants ls) c r n s.mem
    → IsRate limit (grants (l ∷ ls)) c r' n t.mem
Drive-IsRate x c r n r' ls (create t e lt) small z er le q = ground arith
Drive-IsRate x c r n r' ls (Drive.open_budget e a) small z er le q = ground (arith, z refl)
Drive-IsRate x c r n r' ls (Drive.refill b now e) small z er le q = ground (arith, z refl)
Drive-IsRate x c r n r' ls d small z er le q = ground arith

-- The main thread sets the budget while no thread is between the decrement and the double check.
pub none_checking :
    {f : TestFrame} {ls : List Label} {s t : System} {l : Label}
    → Reach f ls s
    → NoEarly ls
    → Drive (threads f) s l t
    → l ≡ refilled
    → total checkers (threads f) s.pc ≡ 0
none_checking {f} {s} r ne (Drive.open_budget e a) el = omega (
  arith,
  total_mono checkers started checkers-le_started (threads f) s.pc,
  Reach-barrier r ne (rw e),
)
none_checking {f} {s} r ne (Drive.refill b now e) el =
    let lock = rw e at (Reach-HasLock r) in
    ground (arith, lock, total_mono checkers holders checkers-le_holders (threads f) s.pc)
none_checking r ne d el = absurd (cc)

takers-le_started : (p : Pc) → takers (wake p) ≤ started p
takers-le_started p = ground arith

-- Only a new budget puts threads on their way to it.
takers_stay :
    {f : TestFrame} {ls : List Label} {s t : System} {l : Label}
    → Reach f ls s
    → NoEarly ls
    → Drive (threads f) s l t
    → (l ≡ refilled) ⊎ (total takers (threads f) t.pc ≤ total takers (threads f) s.pc)
takers_stay {f} {s} r ne (create t e lt) =
    inr (omega (arith, total-update takers (threads f) s.pc t Pc.born lt))
takers_stay {f} {s} r ne (Drive.start now e) = inr (
    omega (
      arith,
      total_mono (λ p. takers (wake p)) started takers-le_started (threads f) s.pc,
      total-compose takers wake (threads f) s.pc,
      Reach-barrier r ne (rw e),
    ))
takers_stay r ne (Drive.open_budget e a) = inl refl
takers_stay r ne (Drive.refill b now e) = inl refl
takers_stay r ne d = inr (omega arith)

Step-HasRate :
    (limit : ℕ) {f : TestFrame} {ls : List Label} {s t : System} {l : Label}
    → IsSmall limit
    → IsSmall (threads f)
    → 0 < limit
    → Reach f ls s
    → NoEarly (l ∷ ls)
    → Step (threads f) s l t
    → HasRate limit (threads f) ls s
    → HasRate limit (threads f) (l ∷ ls) t
Step-HasRate x {f} {ls} {s} {t} {l} small few some r ne (drive d) q =
    let earlier = NoEarly-tail l ls ne in
    rw (Drive-total checkers refl (λ p. ground arith) (Reach-IsFresh r) d) (
      Drive-IsRate x (total checkers (threads f) s.pc) (total takers (threads f) s.pc) (threads f)
        (total takers (threads f) t.pc) ls d small (none_checking r earlier d)
        (takers_stay r earlier d) (total-le takers takers-le (threads f) t.pc) q)
Step-HasRate x {f} {ls} {s} small few some r ne (run i {p = p'} lt on mv) q =
    Move-IsRate x _ _ (threads f) _ _ ls mv ne small few some
      (total-update checkers (threads f) s.pc i p' lt)
      (total-update takers (threads f) s.pc i p' lt)
      (total-le takers takers-le (threads f) (update s.pc i p')) q

-- A frame set up by `SetFrequence` with a positive number, and fewer than 2 ^ 31 threads.
pub record Budget (f : TestFrame) (limit : ℕ) : Type 0 where
  pub small : IsSmall limit
  pub few : IsSmall (threads f)
  pub some_packet : 0 < limit
  pub set_const : f.frequence_const ≡ pos limit
  pub set_count : f.frequence.ci_count ≡ pos 0

pub Reach-HasRate :
    (limit : ℕ) {f : TestFrame} {ls : List Label} {s : System}
    → Budget f limit
    → Reach f ls s
    → NoEarly ls
    → HasRate limit (threads f) ls s
Reach-HasRate x {f} b here ne = ground (
  arith,
  total-eq-zero checkers (threads f) (λ _. unborn) (λ _. refl),
  total-eq-zero takers (threads f) (λ _. unborn) (λ _. refl),
)
Reach-HasRate x {f} b (next {ls} {l} r st) ne =
    Step-HasRate x b.small b.few b.some_packet r ne st (Reach-HasRate x b r (NoEarly-tail l ls ne))

-- The flow control: in every interleaving in which no wait returns by itself, the threads let through
-- at most as many packets from one budget, that is between two settings of it by the main thread, as
-- was set by `SetFrequence`, and the counter is never below minus the number of threads. The number
-- set is positive, and it and the number of threads are below 2 ^ 31.
pub grants-le :
    (limit : ℕ) {f : TestFrame} {ls : List Label} {s : System}
    → Budget f limit
    → Reach f ls s
    → NoEarly ls
    → (grants ls ≤ limit) × (neg_part s.frequence.ci_count ≤ threads f)
grants-le x b r ne = let q = Reach-HasRate x b r ne in omega arith
