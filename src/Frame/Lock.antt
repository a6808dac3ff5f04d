-- ===== src/Frame/Lock.antt =====
-- testframe.cpp: `cLock`, and the barrier before the loops of the threads.
use test_frame.Prelude.{
  ℕ, ◌+◌, ◌≤◌, ◌≡◌, refl, Bool, true, false, if◌then◌else◌, List, [], ◌∷◌, arith, total,
  total-update, total-ge, total-eq-zero,
}
use test_frame.Frame.{TestFrame}
use test_frame.Frame.Worker.{
  Shared, Pc, unborn, born, entering, preparing, gated, metering, taking, checking, Label, early,
  Move, start_early,
}
use test_frame.Frame.System.{
  Control, calling, creating, sleeping, opening, refilling, System, Drive, create, Step, drive, run,
  Reach, here, next, threads,
}
use test_frame.Frame.Threads.{IsFresh, Reach-IsFresh, Drive-total}

abbrev pub holders : Pc → ℕ
holders preparing = 1
holders metering = 1
holders taking = 1
holders checking = 1
holders _ = 0

-- Whether the main thread has the lock.
abbrev pub main_holds : Control → ℕ
main_holds (refilling begin now) = 1
main_holds _ = 0

abbrev pub IsLocked : ℕ → ℕ → Shared → Type 0
IsLocked h k m = (if m.held then 1 else 0) ≡ h + k

Move-IsLocked :
    (h h' k : ℕ) {m m' : Shared} {p p' : Pc} {l : Label}
    → Move m p l m' p'
    → h' + holders p ≡ h + holders p'
    → IsLocked h k m
    → IsLocked h' k m'
Move-IsLocked h h' k (Move.enter free) e q = ground arith
Move-IsLocked h h' k (Move.meter a free) e q = ground arith
Move-IsLocked h h' k (Move.resume free) e q = ground arith
Move-IsLocked h h' k mv e q = ground arith

Drive-IsLocked :
    (h : ℕ) {n : ℕ} {s t : System} {l : Label}
    → Drive n s l t
    → IsLocked h (main_holds s.control) s.mem
    → IsLocked h (main_holds t.control) t.mem
Drive-IsLocked h (create t e lt) q = ground arith
Drive-IsLocked h (Drive.no_case a e) q = ground arith
Drive-IsLocked h (Drive.has_case a e) q = ground arith
Drive-IsLocked h (Drive.create_fails t e lt) q = ground arith
Drive-IsLocked h (Drive.created e) q = ground arith
Drive-IsLocked h (Drive.open_budget e a) q = ground arith
Drive-IsLocked h (Drive.open_free e a) q = ground arith
Drive-IsLocked h (Drive.start now e) q = ground arith
Drive-IsLocked h (Drive.poll b l now e a) q = ground arith
Drive-IsLocked h (Drive.print b now r e a x) q = ground arith
Drive-IsLocked h (Drive.print_nothing b now e a) q = ground arith
Drive-IsLocked h (Drive.reset b now e) q = ground arith
Drive-IsLocked h (Drive.exit b now e a) q = ground arith
Drive-IsLocked h (Drive.keep b now e a x) q = ground arith
Drive-IsLocked h (Drive.acquire b now e a x free) q = ground arith
Drive-IsLocked h (Drive.refill b now e) q = ground arith

abbrev pub HasLock : ℕ → System → Type 0
HasLock n s = IsLocked (total holders n s.pc) (main_holds s.control) s.mem

Step-HasLock :
    {n : ℕ} {s t : System} {l : Label} → IsFresh n s → Step n s l t → HasLock n s → HasLock n t
Step-HasLock {n} {s} fresh (drive d) q =
    rw (Drive-total holders refl (λ p. ground arith) fresh d)
      (Drive-IsLocked (total holders n s.pc) d q)
Step-HasLock {n} {s} fresh (run i {p = p'} lt on mv) q =
    Move-IsLocked (total holders n s.pc) _ (main_holds s.control) mv
      (total-update holders n s.pc i p' lt) q

-- `held` says truly how many threads have the lock, and that is never two.
pub Reach-HasLock :
    {f : TestFrame} {ls : List Label} {s : System} → Reach f ls s → HasLock (threads f) s
Reach-HasLock {f} here = ground (arith, total-eq-zero holders (threads f) (λ _. unborn) (λ _. refl))
Reach-HasLock (next r st) = Step-HasLock (Reach-IsFresh r) st (Reach-HasLock r)

-- Whether a thread is past the wait for the start.
abbrev pub started : Pc → ℕ
started unborn = 0
started born = 0
started entering = 0
started preparing = 0
started (gated rc) = 0
started _ = 1

-- Whether the main thread has not signalled the start yet.
abbrev pub is_closed : Control → Bool
is_closed calling = true
is_closed (creating t) = true
is_closed sleeping = true
is_closed opening = true
is_closed _ = false

-- No wait returned although nobody had signalled.
abbrev pub NoEarly : List Label → Type 0
NoEarly [] = Unit {0}
NoEarly (early ∷ ls) = ⊥
NoEarly (l ∷ ls) = NoEarly ls

Move-started :
    (a a' : ℕ) (ls : List Label) {m m' : Shared} {p p' : Pc} {l : Label}
    → Move m p l m' p'
    → NoEarly (l ∷ ls)
    → a' + started p ≡ a + started p'
    → a ≡ 0
    → started p ≤ a
    → a' ≡ 0
Move-started a a' ls (start_early) ne e z le = absurd ne
Move-started a a' ls mv ne e z le = ground arith

pub NoEarly-tail : (l : Label) (ls : List Label) → NoEarly (l ∷ ls) → NoEarly ls
NoEarly-tail early ls n = absurd n
NoEarly-tail Label.quiet ls n = n
NoEarly-tail Label.refilled ls n = n
NoEarly-tail Label.granted ls n = n

Drive-closed :
    {n : ℕ} {s t : System} {l : Label}
    → Drive n s l t
    → is_closed t.control ≡ true
    → (is_closed s.control ≡ true) × (total started n t.pc ≤ total started n s.pc)
Drive-closed {n} {s} (create t e lt) c =
    (rw e, omega (arith, total-update started n s.pc t born lt))
Drive-closed (Drive.has_case a e) c = (rw e, omega arith)
Drive-closed (Drive.created e) c = (rw e, omega arith)
Drive-closed (Drive.open_budget e a) c = (rw e, omega arith)
Drive-closed (Drive.open_free e a) c = (rw e, omega arith)
Drive-closed d c = absurd (cc)

-- The barrier: unless a wait returns by itself, no thread is past the wait for the start before the
-- main thread has signalled it.
pub Reach-barrier :
    {f : TestFrame} {ls : List Label} {s : System}
    → Reach f ls s
    → NoEarly ls
    → is_closed s.control ≡ true
    → total started (threads f) s.pc ≡ 0
Reach-barrier {f} here ne c = total-eq-zero started (threads f) (λ _. unborn) (λ _. refl)
Reach-barrier {f} (next {ls} {l} r (drive d)) ne c =
    let before = Drive-closed d c in
    omega (arith, before.1, Reach-barrier r (NoEarly-tail l ls ne) before.0)
Reach-barrier {f} (next {ls} {l} {s} r (run i {p = p'} lt on mv)) ne c =
    Move-started (total started (threads f) s.pc) _ ls mv ne
      (total-update started (threads f) s.pc i p' lt) (Reach-barrier r (NoEarly-tail l ls ne) c)
      (total-ge started (threads f) s.pc i lt)
