-- ===== src/Frame/Progress.antt =====
-- testframe.cpp: `cLock` does not get stuck, whoever has it.
use test_frame.Prelude.{
  ℕ, zero, suc, ◌≤◌, ◌<◌, ◌≡◌, ◌≢◌, ◌⊎◌, inl, inr, refl, ap, ◌∙◌, sym, true, false, Bool-cases,
  ◌==◌, List, ◌∷◌, Option, none, some, arith, pos, is_neg, total, update,
}
use test_frame.Synch.{value}
use test_frame.Frame.{TestFrame}
use test_frame.Frame.Worker.{
  Shared, Pc, entering, resumed, quiet, preparing, metering, taking, checking, Label, refilled,
  Move,
}
use test_frame.Frame.System.{
  Control, refilling, System, Drive, drive, wake, is_running, Reach, run, threads,
}
use test_frame.Frame.Start.{Way, stay, go}
use test_frame.Frame.Lock.{holders, main_holds, Reach-HasLock}

-- Steps that one thread makes while all else stands still.
pub data Alone (i : ℕ) : System → ℕ → System → Type 0 where
  rest : {s : System} → Alone i s 0 s
  step :
      {s t : System} {p q : Pc} {l : Label} {m : Shared} {k : ℕ}
      → s.pc i ≡ p
      → Move s.mem p l m q
      → Alone i (record s { mem = m; pc = update s.pc i q }) k t
      → Alone i s (suc k) t

-- The thread gives the lock back in so many steps of its own.
abbrev pub Frees : ℕ → System → ℕ → Type 0
Frees i s most = (k : ℕ) × (t : System) × Alone i s k t × (k ≤ most) × (t.held ≡ false)

pub update-same : (pc : ℕ → Pc) (i : ℕ) (p : Pc) → update pc i p i ≡ p
update-same pc i p = ground arith

module _ (i : ℕ) where
  checking-Frees : (s : System) → s.pc i ≡ checking → Frees i s 1
  checking-Frees s e = elim (Bool-cases (is_neg (value s.mem.frequence))) [
    | inl over ↦ (1, _, Alone.step e (Move.retry over) Alone.rest, omega arith, refl)
    | inr within ↦ (1, _, Alone.step e (Move.grant within) Alone.rest, omega arith, refl)
  ]

  taking-Frees : (s : System) → s.pc i ≡ taking → Frees i s 2
  taking-Frees s e =
      let (k, t, alone, few, free) = checking-Frees _ (update-same s.pc i checking) in
      (suc k, t, Alone.step e Move.take_one alone, omega arith, free)

  metering-Frees : (s : System) → s.pc i ≡ metering → Frees i s 3
  metering-Frees s e = elim (Bool-cases (is_neg (value s.mem.frequence))) [
    | inl used ↦ (1, _, Alone.step e (Move.starve used) Alone.rest, omega arith, refl)
    | inr left ↦
        let (k, t, alone, few, free) = taking-Frees _ (update-same s.pc i taking) in
        (suc k, t, Alone.step e (Move.go_on left) alone, omega arith, free)
  ]

  pub holder-Frees : (p : Pc) (s : System) → s.pc i ≡ p → holders p ≢ 0 → Frees i s 3
  holder-Frees preparing s e h =
      (1, _, Alone.step e (Move.pre_execute (pos 0)) Alone.rest, omega arith, refl)
  holder-Frees metering s e h = metering-Frees s e
  holder-Frees taking s e h =
      let (k, t, alone, few, free) = taking-Frees s e in (k, t, alone, omega arith, free)
  holder-Frees checking s e h =
      let (k, t, alone, few, free) = checking-Frees s e in (k, t, alone, omega arith, free)
  holder-Frees p s e h = absurd (h refl)

pub total-some :
    (weight : Pc → ℕ) (n : ℕ) (pc : ℕ → Pc)
    → total weight n pc ≢ 0
    → (i : ℕ) × (i < n) × (weight (pc i) ≢ 0)
unfolding total
total-some weight zero pc h = absurd (h refl)
total-some weight (suc n) pc h = elim (Bool-cases (weight (pc n) == 0)) [
  | inr some_weight ↦ (n, omega arith, ground arith)
  | inl none_here ↦ let (i, lt, w) = total-some weight n pc (ground arith) in (i, omega arith, w)
]

main_holds-cases :
    (c : Control) → (main_holds c ≡ 0) ⊎ ((begin now : ℕ) × (c ≡ refilling begin now))
main_holds-cases (refilling begin now) = inr (begin, now, refl)
main_holds-cases c = inl refl

pub Alone-Way :
    {n : ℕ} {start : System} (i : ℕ) {ls : List Label} {k : ℕ} {s t : System}
    → i < n
    → is_running s.control ≡ true
    → Way n start ls s
    → Alone i s k t
    → (later : List Label) × Way n start later t
Alone-Way i lt on w rest = (_, w)
Alone-Way i {ls = ls} {s = s} lt on w (step {q = q} {l = l} {m = m} e mv alone) =
    let own : Move s.mem (s.pc i) l m q = rw e mv in
    Alone-Way i {ls = l ∷ ls} lt on (go w (run i lt on own)) alone

-- Who has the lock, where it is taken.
pub has_lock :
    {f : TestFrame} {ls : List Label} {s : System}
    → Reach f ls s
    → s.held ≡ true
    → ((begin now : ℕ) × (s.control ≡ refilling begin now))
      ⊎ ((i : ℕ) × (i < threads f) × (holders (s.pc i) ≢ 0))
has_lock {f} {ls} {s} r held = elim (main_holds-cases s.control) [
  | inr by_main ↦ inl by_main
  | inl others ↦
      let some_holder : total holders (threads f) s.pc ≢ 0 = ground (arith, Reach-HasLock r) in
      inr (total-some holders (threads f) s.pc some_holder)
]

-- Nothing that has the lock waits for anything: in every state that can be reached in which the lock is
-- taken and the process runs, either the main thread has it and gives it back in its next step, or one
-- of the threads does so in at most three steps of its own, in which no other takes part.
pub Reach-Frees :
    {f : TestFrame} {ls : List Label} {s : System}
    → Reach f ls s
    → is_running s.control ≡ true
    → s.held ≡ true
    → ((t : System) × Drive (threads f) s refilled t × (t.held ≡ false))
      ⊎ ((i : ℕ) × (i < threads f) × Frees i s 3)
Reach-Frees {s} r on held = elim (has_lock r held) [
  | inl (begin, now, e) ↦ inl (_, Drive.refill begin now e, refl)
  | inr (i, lt, w) ↦ inr (i, lt, holder-Frees i (s.pc i) s refl w)
]

pub Alone-others :
    (i j : ℕ) {k : ℕ} {s t : System}
    → i ≢ j
    → Alone j s k t
    → (t.pc i ≡ s.pc i) × (t.control ≡ s.control)
Alone-others i j other rest = (refl, refl)
Alone-others i j {s = s} other (step {q = q} e mv alone) =
    let later = Alone-others i j other alone in
    let same : update s.pc j q i ≡ s.pc i = ground arith in (later.0 ∙ same, later.1)

-- Where a thread stands once it has taken the lock that it waits for.
abbrev pub locked_at : Pc → Option Pc
locked_at entering = some preparing
locked_at resumed = some taking
locked_at _ = none

locked_at-Move :
    (p q : Pc) (m : Shared)
    → locked_at p ≡ some q
    → m.held ≡ false
    → Move m p quiet (record m { held = true }) q
locked_at-Move entering preparing m e free = Move.enter free
locked_at-Move resumed taking m e free = Move.resume free
locked_at-Move p q m e free = absurd (cc)

locked_at-wake : (p q : Pc) → locked_at p ≡ some q → wake p ≡ p
locked_at-wake entering q e = refl
locked_at-wake resumed q e = refl
locked_at-wake p q e = absurd (cc)

locked_at-holders : (p q : Pc) → locked_at p ≡ some q → holders p ≡ 0
locked_at-holders entering q e = refl
locked_at-holders resumed q e = refl
locked_at-holders p q e = absurd (cc)

-- A thread that waits for the lock, in a state in which it is free.
take_lock :
    {n : ℕ} {start s : System} {ls : List Label} (i : ℕ) (p q : Pc)
    → i < n
    → is_running s.control ≡ true
    → Way n start ls s
    → s.pc i ≡ p
    → locked_at p ≡ some q
    → s.held ≡ false
    → (later : List Label) × (t : System) × Way n start later t × (t.pc i ≡ q) × (t.held ≡ true)
take_lock {s = s} i p q lt on w e wants free =
    let mv : Move s.mem (s.pc i) quiet (record s.mem { held = true }) q =
      rw e (locked_at-Move p q s.mem wants free) in
    (_, _, go w (run i lt on mv), update-same s.pc i q, refl)

-- A thread that waits for the lock, at the start or after it was woken, is never shut out for good:
-- from every state that can be reached while the process runs, the program can go on so that this
-- thread gets the lock.
pub Reach-locks :
    {f : TestFrame} {ls : List Label} {s : System} (i : ℕ) (q : Pc)
    → Reach f ls s
    → is_running s.control ≡ true
    → i < threads f
    → locked_at (s.pc i) ≡ some q
    → (later : List Label) × (t : System) × Way (threads f) s later t
      × (t.pc i ≡ q)
      × (t.held ≡ true)
Reach-locks {s = s} i q r on lt wants = elim (Bool-cases s.held) [
  | inr free ↦ take_lock i (s.pc i) q lt on stay refl wants free
  | inl held ↦ elim (has_lock r held) [
    | inl (begin, now, e) ↦
        take_lock i (s.pc i) q lt refl (go stay (drive (Drive.refill begin now e)))
          (locked_at-wake (s.pc i) q wants) wants refl
    | inr (j, lt', w) ↦
        let (k, t, alone, few, free) = holder-Frees j (s.pc j) s refl w in
        let differs : i ≢ j =
          λ same. w (ap (λ x. holders (s.pc x)) (sym same) ∙ locked_at-holders (s.pc i) q wants) in
        let (later, way) = Alone-Way j lt' on stay alone in
        let others = Alone-others i j differs alone in
        take_lock i (s.pc i) q lt (rw others.1 on) way others.0 wants free
  ]
]
