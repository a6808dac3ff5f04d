-- ===== src/Prelude/Int.antt =====
-- Signed integers over the native numbers, and the C++ `int` of 32 bits among them.
use Prim.Native.Nat.{ℕ, suc, ◌+◌, ◌-◌, ◌%◌, ◌^◌, ◌≤◌, ◌<◌}
use mathlib.Core.Path.{◌≡◌, refl}
use mathlib.Core.Logic.{◌⊎◌, inl, inr}
use mathlib.Core.Bool.{Bool, true, false}
use native.Mathlib.Omega.{arith}
use test_frame.Prelude.Tests.{ltb, leb, if◌then◌else◌}

-- `negsuc n` is -(n + 1).
pub data ℤ : Type 0 where
  pos : ℕ → ℤ
  negsuc : ℕ → ℤ

abbrev pub pos_part : ℤ → ℕ
pos_part (pos n) = n
pos_part (negsuc n) = 0

abbrev pub neg_part : ℤ → ℕ
neg_part (pos n) = 0
neg_part (negsuc n) = suc n

-- a - b, as an integer.
abbrev pub sub_ℕ : ℕ → ℕ → ℤ
sub_ℕ a b = if leb b a then pos (a - b) else negsuc (b - a - 1)

infix 50 ◌≤ℤ◌
abbrev pub ◌≤ℤ◌ : ℤ → ℤ → Type 0
a ≤ℤ b = pos_part a + neg_part b ≤ pos_part b + neg_part a

abbrev pub ltb_ℤ : ℤ → ℤ → Bool
ltb_ℤ a b = ltb (pos_part a + neg_part b) (pos_part b + neg_part a)

abbrev pub is_neg : ℤ → Bool
is_neg (pos n) = false
is_neg (negsuc n) = true

-- `0 < z`
abbrev pub is_pos : ℤ → Bool
is_pos (pos n) = ltb 0 n
is_pos (negsuc n) = false

-- The conversion to an `int` of the value whose low 32 bits are those of `n`.
abbrev pub int_of_bits : ℕ → ℤ
int_of_bits n =
    if ltb (n % 2 ^ 32) (2 ^ 31) then pos (n % 2 ^ 32) else negsuc (2 ^ 32 - 1 - n % 2 ^ 32)

-- The bits of an integer in an unsigned word of `w` bits (two's complement).
abbrev pub to_bits : ℕ → ℤ → ℕ
to_bits w (pos n) = n % 2 ^ w
to_bits w (negsuc n) = (2 ^ w - 1 - n % 2 ^ w)

-- `x + 1` and `x - 1` on an `int`, with the wrap-around of its 32 bits.
unfoldable pub int_succ : ℤ → ℤ
int_succ z = int_of_bits (to_bits 32 z + 1)

unfoldable pub int_pred : ℤ → ℤ
int_pred z = int_of_bits (to_bits 32 z + (2 ^ 32 - 1))

pub eq_of_parts : (a b : ℤ) → pos_part a + neg_part b ≡ pos_part b + neg_part a → a ≡ b
eq_of_parts a b h = ground arith

-- Away from the lower bound `int_pred` subtracts one.
pub int_pred_parts :
    (z : ℤ)
    → pos_part z < 2 ^ 31
    → neg_part z < 2 ^ 31
    → ((pos_part z ≡ pos_part (int_pred z) + 1) × (neg_part z ≡ 0) × (is_neg (int_pred z) ≡ false))
      ⊎ ((pos_part z ≡ 0)
          × (pos_part (int_pred z) ≡ 0)
          × (neg_part (int_pred z) ≡ neg_part z + 1)
          × (is_neg (int_pred z) ≡ true))
unfolding int_pred
int_pred_parts (pos n) h k = ground arith
int_pred_parts (negsuc n) h k = ground arith

-- Away from the upper bound `int_succ` adds one.
pub int_succ_parts :
    (z : ℤ)
    → pos_part z < 2 ^ 31 - 1
    → neg_part z < 2 ^ 31
    → pos_part (int_succ z) + neg_part z ≡ neg_part (int_succ z) + pos_part z + 1
unfolding int_succ
int_succ_parts (pos n) h k = ground arith
int_succ_parts (negsuc n) h k = ground arith

-- The sign as a test agrees with the parts.
pub is_neg_parts :
    (z : ℤ)
    → ((is_neg z ≡ false) × (neg_part z ≡ 0))
      ⊎ ((is_neg z ≡ true) × (pos_part z ≡ 0) × (0 < neg_part z))
is_neg_parts (pos n) = inl (refl, refl)
is_neg_parts (negsuc n) = inr (refl, refl, omega arith)

-- A value below 2 ^ 31 is the `int` that it is converted to.
pub int_of_bits-eq_of_lt : (n : ℕ) → n < 2 ^ 31 → int_of_bits n ≡ pos n
int_of_bits-eq_of_lt n h = ground arith
