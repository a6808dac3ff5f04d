-- ===== src/Response/Lengths.antt =====
-- tcinclude/tc_http.cpp: the header fields after `setContentLength` and `eraseHeader`, and how long the
-- parts of a text are around what `find` finds.
use test_frame.Prelude.{
  ℕ, suc, ◌+◌, ◌^◌, ◌<◌, ◌≡◌, refl, inl, inr, true, false, Bool-cases, Option, none, some, List, [],
  ◌∷◌, ◌++◌, length, drop, Bytes, eqb_bytes, starts_with, arith,
}
use test_frame.Text.{decimal}
use test_frame.Text.Decimal.{strtoul-decimal, decimal-is_empty}
use test_frame.Response.{Field, upper, get_header}
use test_frame.Response.Decode.{
  HttpResponse, find_text, has_header, erase_header, content_length, get_content_length,
  set_content_length,
}

get_header-erase_header :
    (name : Bytes) (fields rest : List Field)
    → get_header name (erase_header name fields ++ rest) ≡ get_header name rest
unfolding get_header erase_header
get_header-erase_header name [] rest = refl
get_header-erase_header name (f ∷ fields) rest =
    elim (Bool-cases (eqb_bytes (upper f.name) (upper name))) [
      | inl e ↦ rw e (get_header-erase_header name fields rest)
      | inr e ↦ rw (e, get_header, e) (get_header-erase_header name fields rest)
    ]

pub has_header-erase_header :
    (name other : Bytes) (fields : List Field)
    → has_header name fields ≡ false
    → has_header name (erase_header other fields) ≡ false
unfolding has_header erase_header
has_header-erase_header name other [] h = refl
has_header-erase_header name other (f ∷ fields) h =
    let rest = has_header-erase_header name other fields (ground arith) in
    elim (Bool-cases (eqb_bytes (upper f.name) (upper other))) [
      | inl e ↦ rw e rest
      | inr e ↦ rw e (ground arith)
    ]

pub get_header_missing :
    (name : Bytes) (fields : List Field)
    → has_header name fields ≡ false
    → get_header name fields ≡ []
unfolding has_header get_header
get_header_missing name [] h = refl
get_header_missing name (f ∷ fields) h =
    let other : eqb_bytes (upper f.name) (upper name) ≡ false = ground arith in
    let rest : has_header name fields ≡ false = ground arith in
    rw (get_header, other) (get_header_missing name fields rest)

pub get_content_length_missing :
    (fields : List Field) → has_header content_length fields ≡ false → get_content_length fields ≡ 0
unfolding get_content_length
get_content_length_missing fields h = rw (get_header_missing content_length fields h)

-- The length that is set is the one that is read.
pub get_content_length-set :
    (n : ℕ) (r : HttpResponse)
    → n < 2 ^ 64
    → get_content_length (set_content_length n r).headers ≡ n
unfolding get_content_length set_content_length get_header
get_content_length-set n r h =
    let own : List Field = record { name = content_length; value = decimal n } ∷ [] in
    rw (get_header-erase_header content_length r.headers own, decimal-is_empty n)
      (strtoul-decimal n h)

length_of_starts :
    (s text : Bytes)
    → starts_with s text ≡ true
    → length s + length (drop (length s) text) ≡ length text
length_of_starts [] text h = omega arith
length_of_starts (c ∷ s) [] h = absurd (cc)
length_of_starts (c ∷ s) (d ∷ text) h =
    let later : starts_with s text ≡ true = ground arith in
    omega (arith, length_of_starts s text later)

abbrev FoundIn : Bytes → ℕ → Option (Bytes × Bytes) → Type 0
FoundIn s n none = Unit {0}
FoundIn s n (some (before, behind)) = length before + length s + length behind ≡ n

FoundIn-cons :
    (s : Bytes) (c n : ℕ) (o : Option (Bytes × Bytes))
    → FoundIn s n o
    → FoundIn s (suc n) (elim o [ none ↦ none | some (before, behind) ↦ some (c ∷ before, behind) ])
FoundIn-cons s c n none h = tt
FoundIn-cons s c n (some (before, behind)) h = omega arith

find_text-FoundIn : (s text : Bytes) → FoundIn s (length text) (find_text s text)
unfolding find_text
find_text-FoundIn s [] = tt
find_text-FoundIn s (c ∷ text) = elim (Bool-cases (starts_with s (c ∷ text))) [
  | inl e ↦ rw (find_text, e) (omega (arith, length_of_starts s (c ∷ text) e))
  | inr e ↦
      rw (find_text, e)
        (FoundIn-cons s c (length text) (find_text s text) (find_text-FoundIn s text))
]

pub length-find_text :
    (s text before behind : Bytes)
    → find_text s text ≡ some (before, behind)
    → length before + length s + length behind ≡ length text
length-find_text s text before behind h = rw h at (find_text-FoundIn s text)
