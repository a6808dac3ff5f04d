-- ===== src/Text/Hex.antt =====
-- A number in hexadecimal, as a chunk's size is written, and strtol at base 16.
use test_frame.Prelude.{
  ℕ, zero, suc, ◌+◌, ◌*◌, ◌/◌, ◌%◌, ◌^◌, ◌≤◌, ◌<◌, ◌≡◌, ap, sym, ◌∙◌, inl, inr, true, false,
  Bool-cases, ◌==◌, ltb, if◌then◌else◌, pos, [], ◌∷◌, Bytes, All, arith, ◌||◌, refl,
}
use test_frame.Config.Split.{is_space}
use test_frame.Text.{byte_value, digits_in, skip_prefix, signed_in, strtol, clamp_pos, to_int}

abbrev hex_digit : ℕ → ℕ
hex_digit d = if ltb d 10 then 48 + d else 87 + d

-- The digits of a number, with fuel for them.
unfoldable pub hex_loop : ℕ → ℕ → Bytes → Bytes
hex_loop zero n acc = acc
hex_loop (suc fuel) n acc =
    let digits = hex_digit (n % 16) ∷ acc in
    let rest = hex_loop fuel (n / 16) digits in if ltb n 16 then digits else rest

unfoldable pub hex : ℕ → Bytes
unfolding hex_loop
hex n = hex_loop (n + 1) n []

hex_digit_value : (d : ℕ) → d < 16 → byte_value (hex_digit d) ≡ d
hex_digit_value d h = ground arith

-- A byte that the digits consist of.
abbrev pub IsHexDigit : ℕ → Type 0
IsHexDigit c = ltb (byte_value c) 16 ≡ true

hex_digit-IsHexDigit : (d : ℕ) → d < 16 → IsHexDigit (hex_digit d)
hex_digit-IsHexDigit d h = ground arith

hex_loop-IsHexDigit :
    (fuel n : ℕ) (acc : Bytes) → All IsHexDigit acc → All IsHexDigit (hex_loop fuel n acc)
unfolding hex_loop
hex_loop-IsHexDigit zero n acc h = h
hex_loop-IsHexDigit (suc fuel) n acc h =
    let more : All IsHexDigit (hex_digit (n % 16) ∷ acc) =
      (hex_digit-IsHexDigit (n % 16) (omega arith), h) in
    elim (Bool-cases (ltb n 16)) [
      | inl e ↦ rw e more
      | inr e ↦ rw e (hex_loop-IsHexDigit fuel (n / 16) (hex_digit (n % 16) ∷ acc) more)
    ]

pub hex-IsHexDigit : (n : ℕ) → All IsHexDigit (hex n)
unfolding hex
hex-IsHexDigit n = hex_loop-IsHexDigit (n + 1) n [] tt

digits_in-hex_loop :
    (fuel n : ℕ) (acc : Bytes)
    → n < fuel
    → digits_in 16 0 (hex_loop fuel n acc) ≡ digits_in 16 n acc
unfolding hex_loop digits_in
digits_in-hex_loop zero n acc h = absurd (omega arith)
digits_in-hex_loop (suc fuel) n acc h =
    let digit : ltb (byte_value (hex_digit (n % 16))) 16 ≡ true =
      hex_digit-IsHexDigit (n % 16) (omega arith) in
    let v = hex_digit_value (n % 16) (omega arith) in
    elim (Bool-cases (ltb n 16)) [
      | inl e ↦
          let few : n < 16 = ground arith in
          let value : 0 * 16 + byte_value (hex_digit (n % 16)) ≡ n = omega (arith, v) in
          rw (e, digits_in, digit, value)
      | inr e ↦
          let many : 16 ≤ n = ground arith in
          let value : n / 16 * 16 + byte_value (hex_digit (n % 16)) ≡ n = omega (arith, v) in
          rw e (
            digits_in-hex_loop fuel (n / 16) (hex_digit (n % 16) ∷ acc) (omega arith)
            ∙ rw (digits_in, digit, value))
    ]

hex_loop-starts :
    (fuel n : ℕ) (acc : Bytes)
    → n < fuel
    → (c : ℕ) × (rest : Bytes) × (hex_loop fuel n acc ≡ c ∷ rest)
unfolding hex_loop
hex_loop-starts zero n acc h = absurd (omega arith)
hex_loop-starts (suc fuel) n acc h = elim (Bool-cases (ltb n 16)) [
  | inl e ↦ (hex_digit (n % 16), acc, rw e)
  | inr e ↦
      let many : 16 ≤ n = ground arith in
      let (c, rest, eq) = hex_loop-starts fuel (n / 16) (hex_digit (n % 16) ∷ acc) (omega arith) in
      (c, rest, rw e eq)
]

-- The digits have no prefix, since `x` is none of them.
skip_prefix-digits : (text : Bytes) → All IsHexDigit text → skip_prefix 16 text ≡ text
unfolding skip_prefix
skip_prefix-digits [] h = refl
skip_prefix-digits (c ∷ []) h = refl
skip_prefix-digits (c ∷ x ∷ text) h =
    let small : ltb (byte_value x) 16 ≡ true = h.1.0 in
    let no_x : (x == 120 || x == 88) ≡ false = ground arith in rw no_x (ground arith)

strtol-digits :
    (c : ℕ) (rest : Bytes)
    → All IsHexDigit (c ∷ rest)
    → strtol 16 (c ∷ rest) ≡ clamp_pos (digits_in 16 0 (c ∷ rest))
unfolding strtol signed_in
strtol-digits c rest h =
    let digit : ltb (byte_value c) 16 ≡ true = h.0 in
    let space : is_space c ≡ false = ground arith in
    let minus : (c == 45) ≡ false = ground arith in
    let plus : (c == 43) ≡ false = ground arith in
    rw (space, signed_in, minus, plus, skip_prefix-digits (c ∷ rest) h)

-- What is written in hexadecimal is read back, where it fits an `int`.
pub strtol-hex : (n : ℕ) → n < 2 ^ 31 → to_int (strtol 16 (hex n)) ≡ pos n
unfolding hex digits_in
strtol-hex n h =
    let (c, rest, eq) = hex_loop-starts (n + 1) n [] (omega arith) in
    let digits : All IsHexDigit (c ∷ rest) = rw eq at (hex-IsHexDigit n) in
    let value : digits_in 16 0 (c ∷ rest) ≡ n =
      ap (digits_in 16 0) (sym eq) ∙ digits_in-hex_loop (n + 1) n [] (omega arith) in
    let clamped : to_int (clamp_pos n) ≡ pos n = ground arith in
    rw (hex, eq, strtol-digits c rest digits) (ap (λ (m : ℕ). to_int (clamp_pos m)) value ∙ clamped)
