-- ===== src/Response/Bounds.antt =====
-- tcinclude/tc_http.cpp: a header whose end is in the text is read without a step behind the text.
use test_frame.Prelude.{
  ℕ, zero, suc, ◌+◌, ◌≤◌, ◌≡◌, ◌≢◌, ◌⊎◌, inl, inr, refl, Bool, true, Bool-cases, ◌==◌, Option, none,
  some, List, [], ◌∷◌, is_empty, length, take, Bytes, starts_with, contains, arith,
}
use test_frame.Config.Split.{cut}
use test_frame.Response.{Field, on_line, get_line, header_loop, parse_header, trim}
use test_frame.Response.Ends.{contains-c_str-take, decode_of_found, decode_of_missing}
use test_frame.Response.Decode.{
  HttpResponse, crlf_crlf, c_str, find_text, with_headers, on_first_line, parse_response_header,
  on_parsed, on_head, increment_decode, decode, on_increment, blanks,
}

-- The end of the header is ahead, or the text stands in the middle of it.
abbrev pub IsClosed : Bytes → Type 0
IsClosed text =
    (contains crlf_crlf text ≡ true)
    ⊎ ((starts_with (10 ∷ 13 ∷ 10 ∷ []) text ≡ true) ⊎ (starts_with (13 ∷ 10 ∷ []) text ≡ true))

contains-cons :
    (s : Bytes) (c : ℕ) (text : Bytes)
    → contains s (c ∷ text) ≡ true
    → (starts_with s (c ∷ text) ≡ true) ⊎ (contains s text ≡ true)
contains-cons s c text h = ground arith

-- In front of the end of the header a line ends inside the text, and what is behind it is closed.
abbrev Continues : Option Bytes → Type 0
Continues o = (behind : Bytes) × (o ≡ some behind) × IsClosed behind

-- Behind a carriage return `getLine` passes over a byte.
over_return :
    (text : Bytes)
    → (starts_with crlf_crlf (13 ∷ text) ≡ true) ⊎ (contains crlf_crlf text ≡ true)
    → Continues (elim text [ [] ↦ none | d ∷ behind ↦ some behind ])
over_return [] (inl h) = absurd (cc)
over_return [] (inr h) = absurd (cc)
over_return (d ∷ behind) (inl h) = (behind, refl, inr (inr (ground arith)))
over_return (d ∷ behind) (inr h) = elim (contains-cons crlf_crlf d behind h) [
  | inl here ↦ (behind, refl, inr (inl (ground arith)))
  | inr later ↦ (behind, refl, inl later)
]

get_line-Continues : (text : Bytes) → contains crlf_crlf text ≡ true → Continues (get_line text).1
unfolding get_line
get_line-Continues [] h = absurd (cc)
get_line-Continues (c ∷ text) h = elim (Bool-cases (c == 13)) [
  | inl cr ↦
      let e : c ≡ 13 = ground arith in
      rw e (over_return text (contains-cons crlf_crlf 13 text (rw e at h)))
  | inr other ↦
      let later : contains crlf_crlf text ≡ true =
        ground (arith, contains-cons crlf_crlf c text h) in
      elim (Bool-cases (c == 10)) [
        | inl lf ↦ rw (other, lf) (text, refl, inl later)
        | inr more ↦ rw (other, more) (get_line-Continues text later)
      ]
]

-- In the middle of the end of the header the line is empty.
get_line_empty :
    (text : Bytes)
    → (starts_with (10 ∷ 13 ∷ 10 ∷ []) text ≡ true) ⊎ (starts_with (13 ∷ 10 ∷ []) text ≡ true)
    → is_empty (get_line text).0 ≡ true
unfolding get_line
get_line_empty [] h = refl
get_line_empty (c ∷ text) h = ground arith

on_line_empty :
    (next : Bytes → Option (List Field)) (line : Bytes × Option Bytes)
    → is_empty line.0 ≡ true
    → on_line next line ≢ none
unfolding on_line
on_line_empty next (line, none) h e = ground arith
on_line_empty next (line, some behind) h e = ground arith

on_line-Continues :
    (next : Bytes → Option (List Field)) (line : Bytes × Option Bytes) (behind : Bytes)
    → line.1 ≡ some behind
    → next behind ≢ none
    → on_line next line ≢ none
unfolding on_line
on_line-Continues next (line, none) behind h go e = absurd (cc)
on_line-Continues next (line, some b) behind h go e = ground arith

header_loop-ne-none : (fuel : ℕ) (text : Bytes) → IsClosed text → header_loop fuel text ≢ none
unfolding header_loop
header_loop-ne-none zero text h = λ e. (cc)
header_loop-ne-none (suc fuel) text (inr h) =
    on_line_empty (λ (b : Bytes). header_loop fuel b) (get_line text) (get_line_empty text h)
header_loop-ne-none (suc fuel) text (inl h) =
    let (behind, e, closed) = get_line-Continues text h in
    on_line-Continues (λ (b : Bytes). header_loop fuel b) (get_line text) behind e
      (header_loop-ne-none fuel behind closed)

pub parse_header-ne-none : (text : Bytes) → IsClosed text → parse_header text ≢ none
unfolding parse_header
parse_header-ne-none text = header_loop-ne-none (length text + 1) text

with_headers-ne-none :
    (o : Option (List Field)) (r : HttpResponse) → o ≢ none → with_headers o r ≢ none
with_headers-ne-none none r h e = h refl
with_headers-ne-none (some fields) r h e = cc

on_first_line-ne-none :
    (parts : Bytes × Option Bytes) (line : Bytes) (rest : Option Bytes) (r : HttpResponse)
    → Continues rest
    → on_first_line parts line rest r ≢ none
unfolding on_first_line
on_first_line-ne-none (version, none) line rest r h = λ e. (cc)
on_first_line-ne-none (version, some b) line none r (behind, e', closed) = λ e. (cc)
on_first_line-ne-none (version, some b) line (some rest) r (behind, e', closed) =
    let same : rest ≡ behind = cc in
    with_headers-ne-none (parse_header rest) _ (parse_header-ne-none rest (rw same closed))

parse_response_header-ne-none :
    (text : Bytes) (r : HttpResponse)
    → contains crlf_crlf text ≡ true
    → parse_response_header text r ≢ none
unfolding parse_response_header
parse_response_header-ne-none text r h =
    on_first_line-ne-none (cut (32 ∷ []) (trim (get_line text).0 blanks true))
      (trim (get_line text).0 blanks true) (get_line text).1
      (record r { header_line = trim (get_line text).0 blanks true }) (get_line-Continues text h)

on_parsed-ne-none :
    (o : Option HttpResponse) (text before behind : Bytes)
    → o ≢ none
    → on_parsed o text before behind ≢ none
unfolding on_parsed
on_parsed-ne-none none text before behind h e = h refl
on_parsed-ne-none (some r) text before behind h e = ground arith

on_head-ne-none :
    (r : HttpResponse) (text : Bytes) (found : Option (Bytes × Bytes))
    → (found ≢ none → contains crlf_crlf (c_str text) ≡ true)
    → on_head r text found ≢ none
unfolding on_head
on_head-ne-none r text none h = λ e. (cc)
on_head-ne-none r text (some (before, behind)) h =
    on_parsed-ne-none (parse_response_header (c_str text) r) text before behind
      (parse_response_header-ne-none (c_str text) r (h (λ e. (cc))))

increment_decode-ne-none :
    (r : HttpResponse) (text : Bytes)
    → (find_text crlf_crlf text ≢ none → contains crlf_crlf (c_str text) ≡ true)
    → increment_decode r text ≢ none
unfolding increment_decode
increment_decode-ne-none r text h = elim (Bool-cases (r.head_length == 0)) [
  | inl e ↦ rw e (on_head-ne-none r text (find_text crlf_crlf text) h)
  | inr e ↦ rw e (λ p. (cc))
]

on_increment-ne-none :
    (n : ℕ) (o : Option (HttpResponse × Bytes × Bool)) → o ≢ none → on_increment n o ≢ none
on_increment-ne-none n none h e = h refl
on_increment-ne-none n (some (r, rest, done)) h e = cc

-- The decoder stays inside of what it is given: where the array holds a NUL, or the end of a header in
-- front of any, and it is told to take no more bytes than the array has, `decode` reads nothing behind
-- the array or behind the text that it copies, whatever the bytes are and whatever the response held:
-- where the end of a header stands in front of the first NUL all lines are read inside the C string.
pub decode-ne-none :
    (array : Bytes) (n : ℕ) (r : HttpResponse)
    → (contains (0 ∷ []) array ≡ true) ⊎ (contains crlf_crlf (c_str array) ≡ true)
    → n ≤ length array
    → decode array n r ≢ none
decode-ne-none array n r ends le = elim (Bool-cases (contains crlf_crlf (c_str array))) [
  | inr missing ↦ elim ends [
    | inl ended ↦ rw (decode_of_missing array n r missing ended) (λ p. (cc))
    | inr ahead ↦ absurd (cc)
  ]
  | inl ahead ↦ rw (decode_of_found array n r ahead le) (
      on_increment-ne-none n (increment_decode r (take n array))
        (increment_decode-ne-none r (take n array) (contains-c_str-take n array ahead)))
]
