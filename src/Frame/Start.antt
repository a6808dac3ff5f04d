-- ===== src/Frame/Start.antt =====
-- testframe.cpp: the start. `Run` sleeps for a second and then broadcasts once; a thread that comes to
-- its `Wait` later has missed that.
use test_frame.Prelude.{ℕ, ◌≡◌, ◌≢◌, refl, false, List, [], ◌∷◌, arith, ℤ, is_pos}
use test_frame.Frame.{TestFrame}
use test_frame.Frame.Worker.{Shared, Pc, gated, Label, Move}
use test_frame.Frame.System.{System, Drive, create, Step, drive, run, Reach, here, next, threads}
use test_frame.Frame.Lock.{NoEarly, NoEarly-tail, is_closed, main_holds}

-- What can follow a state.
pub data Way (n : ℕ) (s : System) : List Label → System → Type 0 where
  stay : Way n s [] s
  go :
      {ls : List Label} {l : Label} {t u : System}
      → Way n s ls t
      → Step n t l u
      → Way n s (l ∷ ls) u

-- Thread `i` waits for a start that has been signalled already, and there is no flow control.
pub record IsLate (i : ℕ) (rc : ℤ) (s : System) : Type 0 where
  pub waits : s.pc i ≡ gated rc
  pub over : is_closed s.control ≡ false
  pub unmetered : is_pos s.frequence_const ≡ false
  pub unlocked : main_holds s.control ≡ 0

Move-const :
    {m m' : Shared} {p p' : Pc} {l : Label}
    → Move m p l m' p'
    → m'.frequence_const ≡ m.frequence_const
Move-const Move.init = refl
Move-const mv = refl

-- A thread that waits for the start makes no step, unless its wait returns by itself.
gated-rests :
    (ls : List Label) {m m' : Shared} {p p' : Pc} {l : Label}
    → Move m p l m' p'
    → NoEarly (l ∷ ls)
    → (rc : ℤ) → p ≢ gated rc
gated-rests ls Move.start_early ne rc e = absurd ne
gated-rests ls mv ne rc e = cc

Drive-IsLate :
    (i : ℕ) (rc : ℤ) {n : ℕ} {s t : System} {l : Label}
    → Drive n s l t
    → IsLate i rc s
    → IsLate i rc t
Drive-IsLate i rc (create t e lt) v = absurd (ground arith)
Drive-IsLate i rc (Drive.no_case a e) v = absurd (ground arith)
Drive-IsLate i rc (Drive.has_case a e) v = absurd (ground arith)
Drive-IsLate i rc (Drive.created e) v = absurd (ground arith)
Drive-IsLate i rc (Drive.open_budget e a) v = absurd (ground arith)
Drive-IsLate i rc (Drive.open_free e a) v = absurd (ground arith)
Drive-IsLate i rc (Drive.start now e) v = absurd (ground arith)
Drive-IsLate i rc (Drive.refill b now e) v = absurd (ground arith)
Drive-IsLate i rc (Drive.acquire b now e a x free) v = absurd (ground arith)
Drive-IsLate i rc d v = ground arith

Step-IsLate :
    (i : ℕ) (rc : ℤ) (ls : List Label) {n : ℕ} {s t : System} {l : Label}
    → NoEarly (l ∷ ls)
    → Step n s l t
    → IsLate i rc s
    → IsLate i rc t
Step-IsLate i rc ls ne (drive d) v = Drive-IsLate i rc d v
Step-IsLate i rc ls ne (run j lt on mv) v = record {
  waits = ground (arith, v.waits, gated-rests ls mv ne rc);
  over = v.over;
  unmetered = ground (arith, v.unmetered, Move-const mv);
  unlocked = v.unlocked;
}

Way-IsLate :
    (i : ℕ) (rc : ℤ) {n : ℕ} {s : System} {ls : List Label} {t : System}
    → NoEarly ls
    → Way n s ls t
    → IsLate i rc s
    → IsLate i rc t
Way-IsLate i rc ne stay v = v
Way-IsLate i rc ne (go {ls} {l} w st) v =
    Step-IsLate i rc ls ne st (Way-IsLate i rc (NoEarly-tail l ls ne) w v)

Drive-unmetered :
    {n : ℕ} {s t : System} {l : Label}
    → Drive n s l t
    → (is_pos s.frequence_const ≡ false → main_holds s.control ≡ 0)
    → is_pos t.frequence_const ≡ false
    → main_holds t.control ≡ 0
Drive-unmetered (create t e lt) h z = refl
Drive-unmetered (Drive.acquire b now e a x free) h z = absurd (cc)
Drive-unmetered d h z = refl

Step-unmetered :
    {n : ℕ} {s t : System} {l : Label}
    → Step n s l t
    → (is_pos s.frequence_const ≡ false → main_holds s.control ≡ 0)
    → is_pos t.frequence_const ≡ false
    → main_holds t.control ≡ 0
Step-unmetered (drive d) h z = Drive-unmetered d h z
Step-unmetered (run i lt on mv) h z = h (ground (arith, z, Move-const mv))

-- Without flow control the main thread never takes the lock.
pub Reach-unmetered :
    {f : TestFrame} {ls : List Label} {s : System}
    → Reach f ls s
    → is_pos s.frequence_const ≡ false
    → main_holds s.control ≡ 0
Reach-unmetered here z = refl
Reach-unmetered (next r st) z = Step-unmetered st (Reach-unmetered r) z

-- The start is lost for a thread that comes late: in a state that can be reached, where a thread waits
-- for the start after the main thread has signalled it, and no flow control is set, the thread waits
-- in every state that follows, unless a wait returns by itself.
pub late_thread-waits :
    (i : ℕ) (rc : ℤ) {f : TestFrame} {before ls : List Label} {s t : System}
    → Reach f before s
    → is_closed s.control ≡ false
    → is_pos s.frequence_const ≡ false
    → s.pc i ≡ gated rc
    → NoEarly ls
    → Way (threads f) s ls t
    → t.pc i ≡ gated rc
late_thread-waits i rc r over unmetered waits ne w =
    (Way-IsLate i rc ne w (record {
      waits = waits;
      over = over;
      unmetered = unmetered;
      unlocked = Reach-unmetered r unmetered;
    })).waits
