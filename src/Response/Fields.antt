-- ===== src/Response/Fields.antt =====
-- tcinclude/tc_http.cpp: the fields of a header, written and read back.
use test_frame.Prelude.{
  ℕ, zero, suc, ◌+◌, ◌<◌, ◌≤◌, ◌≡◌, refl, ap, ◌∙◌, true, false, ◌==◌, Option, none, some, List, [],
  ◌∷◌, ◌++◌, is_empty, length, length-append, All, Bytes, arith,
}
use mathlib.Core.List.{append_assoc}
use test_frame.Config.Split.{cut}
use test_frame.Config.Pieces.{IsFree, cut-append}
use test_frame.Response.{
  Field, field_of, field_of_parts, on_line, trim, trim_left, trim_left_bytes, space, get_line,
  is_first_line, header_loop, parse_header,
}

-- A byte that does not end a line.
abbrev pub IsInLine : ℕ → Type 0
IsInLine c = ((c == 13) ≡ false) × ((c == 10) ≡ false)

pub get_line-append :
    (line rest : Bytes) → All IsInLine line → get_line (line ++ 13 ∷ 10 ∷ rest) ≡ (line, some rest)
unfolding get_line
get_line-append [] rest h = refl
get_line-append (c ∷ line) rest h = rw (h.0.0, h.0.1, get_line-append line rest h.1)

abbrev pub written : Field → Bytes
written f = f.name ++ 58 ∷ 32 ∷ f.value

abbrev pub render : List Field → Bytes
render [] = 13 ∷ 10 ∷ []
render (f ∷ fields) = written f ++ 13 ∷ 10 ∷ render fields

-- A field that stands on one line, has no colon in its name and no blanks around its parts, and does
-- not look like the first line of a message.
pub record IsField (f : Field) : Type 0 where
  pub one_line : All IsInLine (written f)
  pub no_colon : IsFree (58 ∷ []) f.name
  pub trimmed_name : trim f.name space true ≡ f.name
  pub trimmed_value : trim f.value space true ≡ f.value
  pub no_first_line : is_first_line (written f) ≡ false

trim-space : (text : Bytes) → trim (32 ∷ text) space true ≡ trim text space true
unfolding trim trim_left trim_left_bytes
trim-space text = refl

is_empty-append : (a : Bytes) (c : ℕ) (b : Bytes) → is_empty (a ++ c ∷ b) ≡ false
is_empty-append [] c b = refl
is_empty-append (x ∷ a) c b = refl

is_empty-render : (fields : List Field) (rest : Bytes) → is_empty (render fields ++ rest) ≡ false
is_empty-render [] rest = refl
is_empty-render (f ∷ fields) rest =
    rw (append_assoc (written f) (13 ∷ 10 ∷ render fields) rest)
      (is_empty-append (written f) 13 (10 ∷ (render fields ++ rest)))

field_of-cut :
    (line before behind : Bytes)
    → cut (58 ∷ []) line ≡ (before, some behind)
    → field_of line ≡ record { name = trim before space true; value = trim behind space true } ∷ []
unfolding field_of field_of_parts
field_of-cut line before behind e = ap field_of_parts e

field_of-written : (f : Field) → IsField f → field_of (written f) ≡ f ∷ []
field_of-written f v = rw (
  field_of-cut (written f) f.name (32 ∷ f.value)
      (cut-append (58 ∷ []) f.name 58 (32 ∷ f.value) v.no_colon refl),
  trim-space f.value,
  v.trimmed_name,
  v.trimmed_value,
)

-- What one round of the loop adds, and where the loop ends.
header_loop-line :
    (fuel : ℕ) (text line behind : Bytes) (fields : List Field)
    → get_line text ≡ (line, some behind)
    → is_empty line ≡ false
    → is_first_line line ≡ false
    → is_empty behind ≡ false
    → header_loop fuel behind ≡ some fields
    → header_loop (suc fuel) text ≡ some (field_of line ++ fields)
unfolding header_loop on_line
header_loop-line fuel text line behind fields e some_line first more rest =
    ap (on_line (λ (b : Bytes). header_loop fuel b)) e ∙ rw (on_line, some_line, rest, first, more)

header_loop-end :
    (fuel : ℕ) (text : Bytes) (after : Option Bytes)
    → get_line text ≡ ([], after)
    → header_loop (suc fuel) text ≡ some []
unfolding header_loop on_line
header_loop-end fuel text none e = ap (on_line (λ (b : Bytes). header_loop fuel b)) e
header_loop-end fuel text (some behind) e = ap (on_line (λ (b : Bytes). header_loop fuel b)) e

header_loop-render :
    (fuel : ℕ) (fields : List Field) (rest : Bytes)
    → length fields < fuel
    → All IsField fields
    → header_loop fuel (render fields ++ rest) ≡ some fields
header_loop-render zero fields rest h v = absurd (omega arith)
header_loop-render (suc fuel) [] rest h v =
    header_loop-end fuel (render [] ++ rest) (some rest) (get_line-append [] rest tt)
header_loop-render (suc fuel) (f ∷ fields) rest h v =
    rw (append_assoc (written f) (13 ∷ 10 ∷ render fields) rest) (
      header_loop-line fuel (written f ++ 13 ∷ 10 ∷ (render fields ++ rest)) (written f)
        (render fields ++ rest) fields
        (get_line-append (written f) (render fields ++ rest) v.0.one_line)
        (is_empty-append f.name 58 (32 ∷ f.value)) v.0.no_first_line (is_empty-render fields rest)
        (header_loop-render fuel fields rest (omega arith) v.1)
      ∙ ap (λ (one : List Field). some (one ++ fields)) (field_of-written f v.0))

length-render-le : (fields : List Field) → length fields ≤ length (render fields)
length-render-le [] = omega arith
length-render-le (f ∷ fields) =
    omega (arith, length-append (written f) (13 ∷ 10 ∷ render fields), length-render-le fields)

-- The round trip of a header: fields that each stand on one line, with no colon in the name, no blanks
-- around name and value, and nothing that looks like the first line of a message, are read back in
-- order from lines of a name, a colon, a blank and a value, and the empty line behind them, whatever
-- body follows.
pub parse_header-render :
    (fields : List Field) (body : Bytes)
    → All IsField fields
    → parse_header (render fields ++ body) ≡ some fields
unfolding parse_header
parse_header-render fields body v =
    header_loop-render (length (render fields ++ body) + 1) fields body
      (omega (arith, length-render-le fields, length-append (render fields) body)) v
