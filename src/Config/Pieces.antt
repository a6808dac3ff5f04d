-- ===== src/Config/Pieces.antt =====
-- tcinclude/tc_common.h, TC_Common::sepstr: the pieces between the separators.
use test_frame.Prelude.{
  ℕ, zero, suc, ◌+◌, ◌<◌, ◌≡◌, refl, inl, inr, true, false, Bool-cases, Option, none, some,
  Option-cases, [], ◌∷◌, ◌++◌, length, length-append, All, Bytes, arith,
}
use native.Mathlib.Numerals.{add-one}
use test_frame.Config.Split.{is_sep, cut, push_piece, sepstr_loop, sepstr}

-- A text without a separator.
abbrev pub IsFree : Bytes → Bytes → Type 0
IsFree sep text = All (λ c. is_sep sep c ≡ false) text

module _ (sep : Bytes) where
  cut-free : (a : Bytes) → IsFree sep a → cut sep a ≡ (a, none)
  unfolding cut
  cut-free [] h = refl
  cut-free (c ∷ a) h = rw (h.0, cut-free a h.1)

  -- The first separator ends the first piece.
  pub cut-append :
      (a : Bytes) (c : ℕ) (b : Bytes)
      → IsFree sep a
      → is_sep sep c ≡ true
      → cut sep (a ++ c ∷ b) ≡ (a, some b)
  unfolding cut
  cut-append [] c b h e = rw e
  cut-append (x ∷ a) c b h e = rw (h.0, cut-append a c b h.1 e)

  -- The text behind the separator is shorter.
  Shorter : ℕ → Option Bytes → Type 0
  Shorter n none = Unit
  Shorter n (some r) = length r < n

  Shorter-mono : (n : ℕ) (o : Option Bytes) → Shorter n o → Shorter (suc n) o
  unfolding Shorter
  Shorter-mono n none h = tt
  Shorter-mono n (some r) h = omega arith

  cut-Shorter : (text : Bytes) → Shorter (length text) (cut sep text).1
  unfolding cut Shorter
  cut-Shorter [] = tt
  cut-Shorter (c ∷ text) = elim (Bool-cases (is_sep sep c)) [
    | inl e ↦ rw e (omega arith)
    | inr e ↦ rw e (Shorter-mono (length text) (cut sep text).1 (cut-Shorter text))
  ]

  -- Any fuel above the length of the text gives the same pieces: the loop ends by its own test.
  pub sepstr_loop-fuel :
      (f g : ℕ) (text : Bytes)
      → length text < f
      → length text < g
      → sepstr_loop f sep text ≡ sepstr_loop g sep text
  unfolding sepstr_loop Shorter
  sepstr_loop-fuel zero g text h k = absurd (omega arith)
  sepstr_loop-fuel (suc f) zero text h k = absurd (omega arith)
  sepstr_loop-fuel (suc f) (suc g) text h k = elim (Option-cases (cut sep text).1) [
    | inl e ↦ rw e
    | inr (r, e) ↦
        let short : length r < length text = rw e at (cut-Shorter text) in
        rw (e, sepstr_loop-fuel f g r (omega arith) (omega arith))
  ]

  -- A text without a separator is one piece, if it is not empty.
  pub sepstr-free : (a : Bytes) → IsFree sep a → sepstr sep a ≡ push_piece a []
  unfolding sepstr sepstr_loop
  sepstr-free a h = rw (add-one (length a), sepstr_loop, cut-free a h)

  -- The pieces of a text are the one before its first separator, if that is not empty, and those of
  -- the text behind it.
  pub sepstr-append :
      (a : Bytes) (c : ℕ) (b : Bytes)
      → IsFree sep a
      → is_sep sep c ≡ true
      → sepstr sep (a ++ c ∷ b) ≡ push_piece a (sepstr sep b)
  unfolding sepstr sepstr_loop
  sepstr-append a c b h e = rw (
    add-one (length (a ++ c ∷ b)),
    sepstr_loop,
    cut-append a c b h e,
    sepstr_loop-fuel (length (a ++ c ∷ b)) (length b + 1) b (omega (arith, length-append a (c ∷ b)))
        (omega arith),
  )
