-- ===== src/Frame/Idle.antt =====
-- testframe.cpp: the states in which no thread can go on.
use test_frame.Prelude.{
  ℕ, ◌<◌, ◌≡◌, ◌≢◌, ◌⊎◌, inl, inr, refl, true, false, Bool, Bool-cases, List, arith, pos, is_pos,
  is_neg, total-ge,
}
use test_frame.Synch.{Timeval, value, decrement}
use test_frame.Frame.{TestFrame}
use test_frame.Frame.Worker.{
  Shared, Pc, unborn, born, entering, preparing, gated, called, refused, head, metering, starved,
  resumed, taking, checking, counting, executing, settling, finished, Label, quiet, early, Move,
  is_zero,
}
use test_frame.Frame.System.{
  Control, calling, creating, returned, aborted, System, Drive, no_case, has_case, create,
  create_fails, created, open_budget, open_free, start, poll, print, print_nothing, reset, exit,
  keep, acquire, refill, Step, drive, run, Reach, here, next, is_running, threads,
}
use test_frame.Frame.Lock.{is_closed, main_holds, holders, Reach-HasLock}
use test_frame.Frame.Progress.{has_lock}

-- How many of the `n` threads have been created.
abbrev pub born_below : Control → ℕ → ℕ
born_below calling n = 0
born_below (creating t) n = t
born_below returned n = 0
born_below aborted n = 0
born_below _ n = n

abbrev IsBorn : ℕ → System → Type 0
IsBorn n s = (j : ℕ) → j < born_below s.control n → s.pc j ≢ unborn

Drive-IsBorn : {n : ℕ} {s t : System} {l : Label} → Drive n s l t → IsBorn n s → IsBorn n t
Drive-IsBorn (create t e lt) b j h = ground (arith, b j)
Drive-IsBorn (no_case a e) b j h = ground (arith, b j)
Drive-IsBorn (has_case a e) b j h = ground (arith, b j)
Drive-IsBorn (create_fails t e lt) b j h = ground (arith, b j)
Drive-IsBorn (created e) b j h = ground (arith, b j)
Drive-IsBorn (open_budget e a) b j h = ground (arith, b j)
Drive-IsBorn (open_free e a) b j h = ground (arith, b j)
Drive-IsBorn (start now e) b j h = ground (arith, b j)
Drive-IsBorn (poll b0 l now e a) b j h = ground (arith, b j)
Drive-IsBorn (print b0 now r e a q) b j h = ground (arith, b j)
Drive-IsBorn (print_nothing b0 now e a) b j h = ground (arith, b j)
Drive-IsBorn (reset b0 now e) b j h = ground (arith, b j)
Drive-IsBorn (exit b0 now e a) b j h = ground (arith, b j)
Drive-IsBorn (keep b0 now e a q) b j h = ground (arith, b j)
Drive-IsBorn (acquire b0 now e a q r) b j h = ground (arith, b j)
Drive-IsBorn (refill b0 now e) b j h = ground (arith, b j)

Move-born : {m m' : Shared} {p p' : Pc} {l : Label} → Move m p l m' p' → p' ≢ unborn
Move-born Move.init e = cc
Move-born mv e = cc

Step-IsBorn : {n : ℕ} {s t : System} {l : Label} → Step n s l t → IsBorn n s → IsBorn n t
Step-IsBorn (drive d) b j h = Drive-IsBorn d b j h
Step-IsBorn (run i lt on mv) b j h = ground (arith, b j, Move-born mv)

Reach-IsBorn : {f : TestFrame} {ls : List Label} {s : System} → Reach f ls s → IsBorn (threads f) s
Reach-IsBorn here = λ j h. absurd (omega arith)
Reach-IsBorn (next r st) = Step-IsBorn st (Reach-IsBorn r)

abbrev some_time : Timeval
some_time = record { tv_sec = 0; tv_usec = 0 }

-- No thread can make a step, unless its wait returns by itself.
abbrev pub IsIdle : ℕ → System → Type 0
IsIdle n s =
    (i : ℕ) → i < n → (l : Label) (m : Shared) (p : Pc) → Move s.mem (s.pc i) l m p → l ≡ early

-- A thread that has returned, or waits for the main thread.
abbrev pub is_resting : Pc → Bool
is_resting (gated rc) = true
is_resting refused = true
is_resting starved = true
is_resting finished = true
is_resting _ = false

-- With the lock free, every other thread can go on.
resting_or_goes :
    (m : Shared) (p : Pc)
    → m.held ≡ false
    → p ≢ unborn
    → holders p ≡ 0
    → (is_resting p ≡ true) ⊎ ((m' : Shared) × (p' : Pc) × Move m p quiet m' p')
resting_or_goes m unborn free b h = absurd (b refl)
resting_or_goes m born free b h = inr (_, _, Move.init)
resting_or_goes m entering free b h = inr (_, _, Move.enter free)
resting_or_goes m (gated rc) free b h = inl refl
resting_or_goes m (called rc) free b h = elim (Bool-cases (is_zero rc)) [
  | inl z ↦ inr (_, _, Move.pass free z)
  | inr z ↦ inr (_, _, Move.refuse free z)
]
resting_or_goes m refused free b h = inl refl
resting_or_goes m head free b h = elim (Bool-cases (is_pos m.frequence_const)) [
  | inl metered ↦ inr (_, _, Move.meter metered free)
  | inr unmetered ↦ inr (_, _, Move.unmetered unmetered)
]
resting_or_goes m starved free b h = inl refl
resting_or_goes m resumed free b h = inr (_, _, Move.resume free)
resting_or_goes m counting free b h = elim (Bool-cases (is_pos m.repeat_count_const)) [
  | inr unlimited ↦ inr (_, _, Move.uncounted unlimited)
  | inl limited ↦ elim (Bool-cases (is_neg (decrement m.repeat_count).1)) [
    | inl used_up ↦ inr (_, _, Move.quit limited used_up)
    | inr left ↦ inr (_, _, Move.count limited left)
  ]
]
resting_or_goes m executing free b h = inr (_, _, Move.execute (pos 0) some_time some_time)
resting_or_goes m (settling rc) free b h = inr (_, _, Move.settle)
resting_or_goes m finished free b h = inl refl
resting_or_goes m p free b h = absurd (cc)

-- Who has the lock can go on.
holder_goes :
    (m : Shared) (p : Pc)
    → holders p ≢ 0
    → (l : Label) × (m' : Shared) × (p' : Pc) × Move m p l m' p' × (l ≢ early)
holder_goes m preparing h = (_, _, _, Move.pre_execute (pos 0), λ e. cc)
holder_goes m metering h = elim (Bool-cases (is_neg (value m.frequence))) [
  | inl gone ↦ (_, _, _, Move.starve gone, λ e. cc)
  | inr left ↦ (_, _, _, Move.go_on left, λ e. cc)
]
holder_goes m taking h = (_, _, _, Move.take_one, λ e. cc)
holder_goes m checking h = elim (Bool-cases (is_neg (value m.frequence))) [
  | inl gone ↦ (_, _, _, Move.retry gone, λ e. cc)
  | inr left ↦ (_, _, _, Move.grant left, λ e. cc)
]
holder_goes m p h = absurd (h refl)

all_born : (c : Control) (n : ℕ) → is_closed c ≡ false → is_running c ≡ true → born_below c n ≡ n
all_born c n shut on = ground arith

-- A thread that has something to do.
pub record IsReady (n : ℕ) (s : System) : Type 0 where
  pub thread : ℕ
  pub label : Label
  pub mem' : Shared
  pub pc' : Pc
  pub below : thread < n
  pub move : Move s.mem (s.pc thread) label mem' pc'
  pub on_time : label ≢ early

-- Where some thread neither has returned nor waits for the main thread, a thread can make a step.
pub Reach-IsReady :
    {f : TestFrame} {ls : List Label} {s : System} (i : ℕ)
    → Reach f ls s
    → is_closed s.control ≡ false
    → is_running s.control ≡ true
    → main_holds s.control ≡ 0
    → i < threads f
    → (is_resting (s.pc i) ≡ true) ⊎ IsReady (threads f) s
Reach-IsReady {f} {s = s} i r shut on none_held lt = elim (Bool-cases s.held) [
  | inl held ↦ elim (has_lock r held) [
    | inl (b, now, e) ↦ absurd (ground arith)
    | inr (j, lt', w) ↦
        let (l, m, p, mv, late) = holder_goes s.mem (s.pc j) w in
        inr (record {
          thread = j;
          label = l;
          mem' = m;
          pc' = p;
          below = lt';
          move = mv;
          on_time = late;
        })
  ]
  | inr free ↦
      let lock = Reach-HasLock r in
      let none_holds : holders (s.pc i) ≡ 0 =
        ground (arith, lock, total-ge holders (threads f) s.pc i lt) in
      let born : i < born_below s.control (threads f) =
        rw (all_born s.control (threads f) shut on) lt in
      elim (resting_or_goes s.mem (s.pc i) free (Reach-IsBorn r i born) none_holds) [
        | inl rests ↦ inl rests
        | inr (m, p, mv) ↦ inr (record {
          thread = i;
          label = quiet;
          mem' = m;
          pc' = p;
          below = lt;
          move = mv;
          on_time = λ e. cc;
        })
      ]
]

-- Nothing gets stuck: in every state that can be reached once the threads have been started, in which
-- the process runs and the main thread does not have the lock, if no thread can make a step, unless its
-- wait returns by itself, then every thread has returned or waits for the main thread, that is for the
-- start or for the next budget: no thread waits for the lock or stands anywhere else.
pub Reach-idle :
    {f : TestFrame} {ls : List Label} {s : System} (i : ℕ)
    → Reach f ls s
    → is_closed s.control ≡ false
    → is_running s.control ≡ true
    → main_holds s.control ≡ 0
    → IsIdle (threads f) s
    → i < threads f
    → is_resting (s.pc i) ≡ true
Reach-idle i r shut on none_held idle lt = elim (Reach-IsReady i r shut on none_held lt) [
  | inl rests ↦ rests
  | inr g ↦ absurd (g.on_time (idle g.thread g.below g.label g.mem' g.pc' g.move))
]
