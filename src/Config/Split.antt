-- ===== src/Config/Split.antt =====
-- tcinclude/tc_common.h, the part that the configuration uses: TC_Common::sepstr on strings, without
-- empty pieces, and TC_Common::strto for an unsigned short, with strtoul of the C library at base 10.
use test_frame.Prelude.{
  ℕ, zero, suc, ◌+◌, ◌-◌, ◌*◌, ◌%◌, ◌^◌, ◌==◌, ltb, leb, if◌then◌else◌, Bool, false, ◌&&◌, ◌||◌,
  Option, none, some, List, [], ◌∷◌, is_empty, length, Bytes,
}

-- Whether a byte is one of the separators.
abbrev pub is_sep : Bytes → ℕ → Bool
is_sep [] c = false
is_sep (d ∷ sep) c = c == d || is_sep sep c

-- `find_first_of` and `substr`: the text before the first separator, and the text behind it, if there
-- is one.
unfoldable pub cut : Bytes → Bytes → Bytes × Option Bytes
cut sep [] = ([], none)
cut sep (c ∷ text) =
    let rest = cut sep text in if is_sep sep c then ([], some text) else (c ∷ rest.0, rest.1)

-- An empty piece is not pushed.
abbrev pub push_piece : Bytes → List Bytes → List Bytes
push_piece s pieces = if is_empty s then pieces else s ∷ pieces

-- The loop, at the text from `pos` on, with fuel for the rounds.
unfoldable pub sepstr_loop : ℕ → Bytes → Bytes → List Bytes
unfolding cut
sepstr_loop zero sep text = []
sepstr_loop (suc fuel) sep text =
    let (s, rest) = cut sep text in
    push_piece s (elim rest [ none ↦ [] | some behind ↦ sepstr_loop fuel sep behind ])

unfoldable pub sepstr : Bytes → Bytes → List Bytes
unfolding sepstr_loop
sepstr sep text = sepstr_loop (length text + 1) sep text

abbrev pub is_space : ℕ → Bool
is_space c = c == 32 || (leb 9 c && leb c 13)

abbrev pub is_digit : ℕ → Bool
is_digit c = leb 48 c && leb c 57

-- The value of the digits at the start of a text, behind those that made `acc`.
unfoldable pub digits_value : ℕ → Bytes → ℕ
digits_value acc [] = acc
digits_value acc (c ∷ text) =
    let rest = digits_value (acc * 10 + (c - 48)) text in if is_digit c then rest else acc

abbrev pub ulong_max : ℕ
ulong_max = 2 ^ 64 - 1

abbrev pub saturate : ℕ → ℕ
saturate n = if ltb ulong_max n then ulong_max else n

abbrev pub negate_ulong : ℕ → ℕ
negate_ulong n = if ltb ulong_max n then ulong_max else (2 ^ 64 - n) % 2 ^ 64

-- The sign and the digits.
unfoldable pub signed_value : Bytes → ℕ
unfolding digits_value
signed_value [] = 0
signed_value (c ∷ text) =
    if c == 45
    then negate_ulong (digits_value 0 text)
    else (if c == 43 then saturate (digits_value 0 text) else saturate (digits_value 0 (c ∷ text)))

unfoldable pub strtoul : Bytes → ℕ
unfolding signed_value
strtoul [] = 0
strtoul (c ∷ text) = let rest = strtoul text in if is_space c then rest else signed_value (c ∷ text)

-- `strto<unsigned short>`: the result is cut to 16 bits.
unfoldable pub strto_ushort : Bytes → ℕ
unfolding strtoul
strto_ushort text = if is_empty text then 0 else strtoul text % 2 ^ 16
