-- ===== src/Response/Overload.antt =====
-- tcinclude/tc_http.cpp: the overload of `decode` for a string, which has its length with it.
use test_frame.Prelude.{
  ◌≡◌, refl, ap, sym, ◌∙◌, inl, inr, Bool, false, Bool-cases, Option, none, some, Option-cases, [],
  ◌∷◌, ◌++◌, length, length-append, Bytes, starts_with, contains, arith,
}
use mathlib.Core.List.{append-nil}
use test_frame.Response.Ends.{IsText, contains-nul, decode_of_found, decode_of_missing}
use test_frame.Response.Chunks.{take-append}
use test_frame.Response.Whole.{c_str-append, contains_of_found}
use test_frame.Response.Decode.{
  HttpResponse, crlf_crlf, c_str, find_text, increment_decode, on_increment, decode,
}

-- Where the end of the header is not found, nothing is decoded.
abbrev pub if_found :
    HttpResponse
    → Option (HttpResponse × Bool)
    → Option (Bytes × Bytes)
    → Option (HttpResponse × Bool)
if_found r decoded none = some (r, false)
if_found r decoded (some found) = decoded

unfoldable pub decode_string : Bytes → HttpResponse → Option (HttpResponse × Bool)
unfolding find_text increment_decode
decode_string text r =
    if_found r (on_increment (length text) (increment_decode r text)) (find_text crlf_crlf text)

contains_of_missing :
    (text : Bytes) → find_text crlf_crlf text ≡ none → contains crlf_crlf text ≡ false
unfolding find_text
contains_of_missing [] h = refl
contains_of_missing (c ∷ text) h = elim (Bool-cases (starts_with crlf_crlf (c ∷ text))) [
  | inl e ↦ absurd (ground (arith, e))
  | inr e ↦ elim (Option-cases (find_text crlf_crlf text)) [
    | inr (p, f) ↦ absurd (ground (arith, e, f))
    | inl f ↦ rw e (contains_of_missing text f)
  ]
]

c_str-ended : (text behind : Bytes) → IsText text → c_str (text ++ 0 ∷ behind) ≡ text
unfolding c_str
c_str-ended text behind t = c_str-append text (0 ∷ behind) t ∙ append-nil text

-- The two overloads agree: on a text without a NUL, whatever the response held before, `decode` of an
-- array with that text and a NUL behind it, and `decode` of the text as a string, end in the same state
-- with the same result.
pub decode-string :
    (text behind : Bytes) (r : HttpResponse)
    → IsText text
    → decode (text ++ 0 ∷ behind) (length text) r ≡ decode_string text r
unfolding decode decode_string
decode-string text behind r t =
    let taken = take-append text (0 ∷ behind) in
    let ended = c_str-ended text behind t in
    let decoded = on_increment (length text) (increment_decode r text) in
    elim (Option-cases (find_text crlf_crlf text)) [
      | inl e ↦
          let none_there : decode (text ++ 0 ∷ behind) (length text) r ≡ some (r, false) =
            decode_of_missing (text ++ 0 ∷ behind) (length text) r
              (rw ended (contains_of_missing text e)) (contains-nul text behind) in
          none_there ∙ sym (ap (if_found r decoded) e)
      | inr ((before, after), e) ↦
          let found : decode (text ++ 0 ∷ behind) (length text) r ≡ decoded =
            decode_of_found (text ++ 0 ∷ behind) (length text) r
              (rw ended (contains_of_found crlf_crlf text before after e))
              (omega (arith, length-append text (0 ∷ behind)))
            ∙ ap (λ (t : Bytes). on_increment (length text) (increment_decode r t)) taken in
          found ∙ sym (ap (if_found r decoded) e)
    ]
