-- ===== src/Frame/Threads.antt =====
-- testframe.cpp: facts on the threads of a reachable state that the invariants share.
use test_frame.Prelude.{ℕ, ◌≤◌, ◌≡◌, ◌≢◌, refl, ap, List, arith, total, total-update, total-map}
use test_frame.Frame.{TestFrame}
use test_frame.Frame.Worker.{Shared, Pc, unborn, born, Label, Move}
use test_frame.Frame.System.{
  Control, creating, calling, System, Drive, no_case, has_case, create, create_fails, created,
  open_budget, open_free, start, poll, print, print_nothing, reset, exit, keep, acquire, refill,
  Step, drive, run, wake, Reach, here, next, threads,
}

-- A thread that is not created makes no step.
unborn-rests : {m m' : Shared} {p p' : Pc} {l : Label} → Move m p l m' p' → p ≢ unborn
unborn-rests Move.init e = cc
unborn-rests mv e = cc

-- From which thread on nothing has been created.
abbrev pub first_free : Control → ℕ → ℕ
first_free calling n = 0
first_free (creating t) n = t
first_free _ n = n

-- Threads that are still to be created have not started.
abbrev pub IsFresh : ℕ → System → Type 0
IsFresh n s = (j : ℕ) → first_free s.control n ≤ j → s.pc j ≡ unborn

Drive-IsFresh : {n : ℕ} {s t : System} {l : Label} → Drive n s l t → IsFresh n s → IsFresh n t
Drive-IsFresh (create t e lt) f j h = ground (arith, f j)
Drive-IsFresh (no_case a e) f j h = ground (arith, f j)
Drive-IsFresh (has_case a e) f j h = ground (arith, f j)
Drive-IsFresh (create_fails t e lt) f j h = ground (arith, f j)
Drive-IsFresh (created e) f j h = ground (arith, f j)
Drive-IsFresh (open_budget e a) f j h = ground (arith, f j)
Drive-IsFresh (open_free e a) f j h = ground (arith, f j)
Drive-IsFresh (start now e) f j h = ground (arith, f j)
Drive-IsFresh (poll b l now e a) f j h = ground (arith, f j)
Drive-IsFresh (print b now r e a q) f j h = ground (arith, f j)
Drive-IsFresh (print_nothing b now e a) f j h = ground (arith, f j)
Drive-IsFresh (reset b now e) f j h = ground (arith, f j)
Drive-IsFresh (exit b now e a) f j h = ground (arith, f j)
Drive-IsFresh (keep b now e a q) f j h = ground (arith, f j)
Drive-IsFresh (acquire b now e a q r) f j h = ground (arith, f j)
Drive-IsFresh (refill b now e) f j h = ground (arith, f j)

Step-IsFresh : {n : ℕ} {s t : System} {l : Label} → Step n s l t → IsFresh n s → IsFresh n t
Step-IsFresh (drive d) f j h = Drive-IsFresh d f j h
Step-IsFresh (run i lt on mv) f j h = ground (arith, f j, f i, unborn-rests mv)

-- Threads that are still to be created have not started, in every state that can be reached.
pub Reach-IsFresh :
    {f : TestFrame} {ls : List Label} {s : System} → Reach f ls s → IsFresh (threads f) s
Reach-IsFresh here j h = refl
Reach-IsFresh (next r st) j h = Step-IsFresh st (Reach-IsFresh r) j h

-- The settings of the frame, which `Run` does not change.
pub record Settings (f : TestFrame) (m : Shared) : Type 0 where
  pub same_repeat : m.repeat_count_const ≡ f.repeat_count_const
  pub same_frequence : m.frequence_const ≡ f.frequence_const
  pub same_duration : m.duration_time ≡ f.duration_time
  pub same_threshold : m.delay_threshold ≡ f.delay_threshold

pub own-Settings : (m : Shared) → Settings m.frame m
own-Settings m = record {
  same_repeat = refl;
  same_frequence = refl;
  same_duration = refl;
  same_threshold = refl;
}

Move-Settings :
    {f : TestFrame} {m m' : Shared} {p p' : Pc} {l : Label}
    → Move m p l m' p'
    → Settings f m
    → Settings f m'
Move-Settings Move.init e = e
Move-Settings mv e = record {
  same_repeat = e.same_repeat;
  same_frequence = e.same_frequence;
  same_duration = e.same_duration;
  same_threshold = e.same_threshold;
}

pub Step-Settings :
    {f : TestFrame} {n : ℕ} {s t : System} {l : Label}
    → Step n s l t
    → Settings f s.mem
    → Settings f t.mem
Step-Settings (drive (create t e lt)) v = v
Step-Settings (drive d) v = record {
  same_repeat = v.same_repeat;
  same_frequence = v.same_frequence;
  same_duration = v.same_duration;
  same_threshold = v.same_threshold;
}
Step-Settings (run i lt on mv) v = Move-Settings mv v

pub Reach-Settings :
    {f : TestFrame} {ls : List Label} {s : System} → Reach f ls s → Settings f s.mem
Reach-Settings here = record {
  same_repeat = refl;
  same_frequence = refl;
  same_duration = refl;
  same_threshold = refl;
}
Reach-Settings (next r st) = Step-Settings st (Reach-Settings r)

-- What the main thread does to a weight that creation and a broadcast do not change.
pub Drive-total :
    (w : Pc → ℕ) {n : ℕ} {s t : System} {l : Label}
    → w born ≡ w unborn
    → ((p : Pc) → w (wake p) ≡ w p)
    → IsFresh n s
    → Drive n s l t
    → total w n t.pc ≡ total w n s.pc
Drive-total w {n} {s} b k f (create t e lt) =
    omega (arith, total-update w n s.pc t born lt, ap w (f t (rw e (omega arith))))
Drive-total w {n} {s} b k f (start now e) = total-map w wake k n s.pc
Drive-total w {n} {s} b k f (refill b' now e) = total-map w wake k n s.pc
Drive-total w b k f d = refl
