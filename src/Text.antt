-- ===== src/Text.antt =====
-- Numbers as texts: what `operator<<` of a stream prints, and what strtol and atoi of the C library read.
pub mod Hex
pub mod Decimal
use test_frame.Prelude.{
  ℕ, zero, suc, ◌+◌, ◌-◌, ◌*◌, ◌/◌, ◌%◌, ◌^◌, ◌==◌, ltb, leb, if◌then◌else◌, Bool, true, false,
  ◌&&◌, ◌||◌, Option, none, some, starts_with, ℤ, pos, negsuc, sub_ℕ, int_of_bits, to_bits, List,
  [], ◌∷◌, Bytes,
}
use test_frame.Config.Split.{is_space}

-- A number as the stream prints it, with fuel for the digits; one more than the number is enough.
unfoldable pub decimal_loop : ℕ → ℕ → Bytes → Bytes
decimal_loop zero n acc = acc
decimal_loop (suc fuel) n acc =
    let digits = (48 + n % 10) ∷ acc in
    let rest = decimal_loop fuel (n / 10) digits in if ltb n 10 then digits else rest

unfoldable pub decimal : ℕ → Bytes
unfolding decimal_loop
decimal n = decimal_loop (n + 1) n []

-- The value of a digit or a letter, and 36 for any other byte.
abbrev pub byte_value : ℕ → ℕ
byte_value c =
    if leb 48 c && leb c 57
    then c - 48
    else (if leb 97 c && leb c 122 then c - 87 else (if leb 65 c && leb c 90 then c - 55 else 36))

-- The value of the digits at the start of a text, behind those that made `acc`.
unfoldable pub digits_in : ℕ → ℕ → Bytes → ℕ
digits_in base acc [] = acc
digits_in base acc (c ∷ text) =
    let rest = digits_in base (acc * base + byte_value c) text in
    if ltb (byte_value c) base then rest else acc

-- At base 16 a text may begin with `0x`.
unfoldable pub skip_prefix : ℕ → Bytes → Bytes
skip_prefix base (c ∷ x ∷ text) =
    if base == 16 && (c == 48 && (x == 120 || x == 88)) then text else c ∷ x ∷ text
skip_prefix base (c ∷ []) = c ∷ []
skip_prefix base [] = []

abbrev pub long_max : ℕ
long_max = 2 ^ 63 - 1

-- A `long` out of range is the nearest bound.
abbrev pub clamp_pos : ℕ → ℤ
clamp_pos n = pos (if ltb long_max n then long_max else n)

abbrev pub clamp_neg : ℕ → ℤ
clamp_neg n = if ltb (long_max + 1) n then sub_ℕ 0 (long_max + 1) else sub_ℕ 0 n

unfoldable pub signed_in : ℕ → Bytes → ℤ
unfolding digits_in skip_prefix
signed_in base [] = pos 0
signed_in base (c ∷ text) =
    if c == 45
    then clamp_neg (digits_in base 0 (skip_prefix base text))
    else (if c == 43
        then clamp_pos (digits_in base 0 (skip_prefix base text))
        else clamp_pos (digits_in base 0 (skip_prefix base (c ∷ text))))

unfoldable pub strtol : ℕ → Bytes → ℤ
unfolding signed_in
strtol base [] = pos 0
strtol base (c ∷ text) =
    let rest = strtol base text in if is_space c then rest else signed_in base (c ∷ text)

-- The conversion of the `long` to an `int`.
abbrev pub to_int : ℤ → ℤ
to_int z = int_of_bits (to_bits 64 z)

-- `atoi`
abbrev pub atoi : Bytes → ℤ
atoi text = to_int (strtol 10 text)

-- strstr: whether `s` stands in the C string of an array. It stops where it finds `s`; `none` is a read
-- behind an array that holds neither `s` nor a NUL.
unfoldable pub strstr : Bytes → Bytes → Option Bool
strstr s [] = none
strstr s (b ∷ array) =
    let rest = strstr s array in
    if starts_with s (b ∷ array) then some true else (if b == 0 then some false else rest)
