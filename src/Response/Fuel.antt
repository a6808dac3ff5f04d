-- ===== src/Response/Fuel.antt =====
-- tcinclude/tc_http.cpp: the loops of `incrementDecode` and `parseHeader` end by their own tests.
use test_frame.Prelude.{
  ℕ, zero, suc, ◌+◌, ◌<◌, ◌≡◌, refl, Bool, Option, none, some, pos_part, List, [], ◌∷◌, ◌++◌, take,
  drop, length, Bytes, arith,
}
use test_frame.Text.{strtol, to_int}
use test_frame.Response.{Field, get_line, on_line, header_loop}
use test_frame.Response.Lengths.{length-find_text}
use test_frame.Response.Measured.{length-drop}
use test_frame.Response.Decode.{
  HttpResponse, crlf, c_str, find_text, set_own_length, take_chunk, chunk_loop,
}

abbrev Next : Type 0
Next = HttpResponse → Bytes → HttpResponse × Bytes × Bool

take_chunk-same :
    (next next' : Next) (r : HttpResponse) (text : Bytes) (found : Option (Bytes × Bytes))
    → find_text crlf text ≡ found
    → ((r' : HttpResponse) (t : Bytes) → length t < length text → next r' t ≡ next' r' t)
    → take_chunk next r text found ≡ take_chunk next' r text found
unfolding take_chunk
take_chunk-same next next' r text none e same = refl
take_chunk-same next next' r text (some (digits, behind)) e same =
    let n = pos_part (to_int (strtol 16 (c_str digits))) in
    let r' = set_own_length (record r { content = r.content ++ take n behind }) in
    let shorter : length (drop (n + 2) behind) < length text =
      omega (arith, length-drop (n + 2) behind, length-find_text crlf text digits behind e) in
    rw (same r' (drop (n + 2) behind) shorter) refl

-- The loop over the chunks ends by its own tests: whatever the text is, any fuel above its length gives
-- the same response, the same rest and the same result.
pub chunk_loop-fuel :
    (a b : ℕ) (r : HttpResponse) (text : Bytes)
    → length text < a
    → length text < b
    → chunk_loop a r text ≡ chunk_loop b r text
unfolding chunk_loop
chunk_loop-fuel zero b r text h k = absurd (omega arith)
chunk_loop-fuel (suc a) zero r text h k = absurd (omega arith)
chunk_loop-fuel (suc a) (suc b) r text h k =
    take_chunk-same (λ (r' : HttpResponse) (t : Bytes). chunk_loop a r' t)
      (λ (r' : HttpResponse) (t : Bytes). chunk_loop b r' t) r text (find_text crlf text) refl
      (λ r' t lt. chunk_loop-fuel a b r' t (omega arith) (omega arith))

abbrev IsShorter : ℕ → Option Bytes → Type 0
IsShorter n none = Unit {0}
IsShorter n (some behind) = length behind < n

get_line-IsShorter : (text : Bytes) → IsShorter (length text) (get_line text).1
unfolding get_line
get_line-IsShorter [] = tt
get_line-IsShorter (c ∷ []) = ground arith
get_line-IsShorter (c ∷ d ∷ text) = ground (arith, get_line-IsShorter (d ∷ text))

on_line-same :
    (next next' : Bytes → Option (List Field)) (n : ℕ) (p : Bytes × Option Bytes)
    → IsShorter n p.1
    → ((t : Bytes) → length t < n → next t ≡ next' t)
    → on_line next p ≡ on_line next' p
unfolding on_line
on_line-same next next' n (line, none) s same = refl
on_line-same next next' n (line, some behind) s same = rw (same behind s) refl

-- The loop over the lines ends by its own tests: any fuel above the length of the text gives the same
-- fields.
pub header_loop-fuel :
    (a b : ℕ) (text : Bytes)
    → length text < a
    → length text < b
    → header_loop a text ≡ header_loop b text
unfolding header_loop
header_loop-fuel zero b text h k = absurd (omega arith)
header_loop-fuel (suc a) zero text h k = absurd (omega arith)
header_loop-fuel (suc a) (suc b) text h k =
    on_line-same (λ (t : Bytes). header_loop a t) (λ (t : Bytes). header_loop b t) (length text)
      (get_line text) (get_line-IsShorter text)
      (λ t lt. header_loop-fuel a b t (omega arith) (omega arith))
