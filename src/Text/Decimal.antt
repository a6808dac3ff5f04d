-- ===== src/Text/Decimal.antt =====
-- A number in decimal, as a stream prints it, and strtoul, which reads it back.
use test_frame.Prelude.{
  ℕ, zero, suc, ◌+◌, ◌-◌, ◌*◌, ◌/◌, ◌%◌, ◌^◌, ◌≤◌, ◌<◌, ◌≡◌, ap, sym, ◌∙◌, inl, inr, true, false,
  Bool-cases, ◌==◌, ltb, [], ◌∷◌, Bytes, is_empty, arith,
}
use test_frame.Config.Split.{
  digits_value, strtoul, signed_value, strto_ushort, is_digit, is_space, saturate,
}
use test_frame.Text.{decimal_loop, decimal}

-- The digits of `n` in front of a text are read as `n`.
digits_value-decimal_loop :
    (fuel n : ℕ) (acc : Bytes)
    → n < fuel
    → digits_value 0 (decimal_loop fuel n acc) ≡ digits_value n acc
unfolding decimal_loop digits_value
digits_value-decimal_loop zero n acc h = absurd (omega arith)
digits_value-decimal_loop (suc fuel) n acc h = elim (Bool-cases (ltb n 10)) [
  | inl e ↦
      let few : n < 10 = ground arith in
      let one : n % 10 ≡ n = omega arith in
      let digit : is_digit (48 + n % 10) ≡ true = ground arith in
      let value : 48 + n % 10 - 48 ≡ n = omega arith in
      let none_before : 0 * 10 + n ≡ n = omega arith in
      rw (e, digits_value, digit, value, none_before)
  | inr e ↦
      let many : 10 ≤ n = ground arith in
      let digit : is_digit (48 + n % 10) ≡ true = ground arith in
      let value : n / 10 * 10 + (48 + n % 10 - 48) ≡ n = omega arith in
      rw e (
        digits_value-decimal_loop fuel (n / 10) ((48 + n % 10) ∷ acc) (omega arith)
        ∙ rw (digits_value, digit, value))
]

-- The first byte is a digit, so neither a space nor a sign.
decimal_loop-starts :
    (fuel n : ℕ) (acc : Bytes)
    → n < fuel
    → (c : ℕ) × (rest : Bytes) × (decimal_loop fuel n acc ≡ c ∷ rest) × (is_digit c ≡ true)
unfolding decimal_loop
decimal_loop-starts zero n acc h = absurd (omega arith)
decimal_loop-starts (suc fuel) n acc h = elim (Bool-cases (ltb n 10)) [
  | inl e ↦ (48 + n % 10, acc, rw e, ground arith)
  | inr e ↦
      let many : 10 ≤ n = ground arith in
      let (c, rest, eq, digit) =
        decimal_loop-starts fuel (n / 10) ((48 + n % 10) ∷ acc) (omega arith) in
      (c, rest, rw e eq, digit)
]

strtoul-digit :
    (c : ℕ) (rest : Bytes)
    → is_digit c ≡ true
    → strtoul (c ∷ rest) ≡ saturate (digits_value 0 (c ∷ rest))
unfolding strtoul signed_value
strtoul-digit c rest h =
    let space : is_space c ≡ false = ground arith in
    let minus : (c == 45) ≡ false = ground arith in
    let plus : (c == 43) ≡ false = ground arith in rw (space, signed_value, minus, plus)

-- The round trip of a number: what the stream prints in decimal, with the fuel that it is given,
-- strtoul reads back as the same number, where the number fits an unsigned long.
pub strtoul-decimal : (n : ℕ) → n < 2 ^ 64 → strtoul (decimal n) ≡ n
unfolding decimal digits_value
strtoul-decimal n h =
    let (c, rest, eq, digit) = decimal_loop-starts (n + 1) n [] (omega arith) in
    let value : digits_value 0 (c ∷ rest) ≡ n =
      ap (digits_value 0) (sym eq) ∙ digits_value-decimal_loop (n + 1) n [] (omega arith) in
    let fits : saturate n ≡ n = ground arith in
    rw (decimal, eq, strtoul-digit c rest digit) (ap saturate value ∙ fits)

-- A port written in decimal is read as itself, and as its low 16 bits where it is too large.
pub strto_ushort-decimal : (n : ℕ) → n < 2 ^ 64 → strto_ushort (decimal n) ≡ n % 2 ^ 16
unfolding strto_ushort decimal
strto_ushort-decimal n h =
    let (c, rest, eq, digit) = decimal_loop-starts (n + 1) n [] (omega arith) in
    let some_text : is_empty (decimal n) ≡ false = rw (decimal, eq) in
    rw (strto_ushort, some_text, strtoul-decimal n h)

pub decimal-is_empty : (n : ℕ) → is_empty (decimal n) ≡ false
unfolding decimal
decimal-is_empty n =
    let (c, rest, eq, digit) = decimal_loop-starts (n + 1) n [] (omega arith) in rw (decimal, eq)
