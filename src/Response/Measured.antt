-- ===== src/Response/Measured.antt =====
-- tcinclude/tc_http.cpp, `incrementDecode` on chunks: the lengths by which `decode` measures the response.
use test_frame.Prelude.{
  ℕ, zero, suc, ◌+◌, ◌-◌, ◌%◌, ◌^◌, ◌≤◌, ◌<◌, ◌≡◌, refl, inl, inr, Bool, true, Bool-cases, leb,
  Option, none, some, pos_part, is_pos, List, [], ◌∷◌, ◌++◌, length, length-append, length-take,
  take, drop, Bytes, arith,
}
use test_frame.Text.{strtol, to_int}
use test_frame.Response.Lengths.{length-find_text, get_content_length-set}
use test_frame.Response.Decode.{
  HttpResponse, crlf, c_str, find_text, get_content_length, set_content_length, set_own_length,
  no_body_length, last_chunk, take_chunk, chunk_loop, is_whole,
}

-- The length in the header and the header's own length are within what was received.
pub record IsMeasured (k h : ℕ) (r : HttpResponse) (left : ℕ) : Type 0 where
  pub stated : get_content_length r.headers ≤ length r.content
  pub within : length r.content + left ≤ k
  pub head : r.head_length ≡ h

set_own_length-IsMeasured :
    (k h : ℕ) (r : HttpResponse) (left : ℕ)
    → k < 2 ^ 63
    → length r.content + left ≤ k
    → r.head_length ≡ h
    → IsMeasured k h (set_own_length r) left
unfolding set_content_length
set_own_length-IsMeasured k h r left small w e = record {
  stated = omega (arith, get_content_length-set (length r.content) r (omega arith));
  within = w;
  head = e;
}

IsMeasured-less :
    (k h : ℕ) (r : HttpResponse) (left left' : ℕ)
    → left' ≤ left
    → IsMeasured k h r left
    → IsMeasured k h r left'
IsMeasured-less k h r left left' le m = record {
  stated = m.stated;
  within = omega (arith, m.within);
  head = m.head;
}

last_chunk-IsMeasured :
    (k h : ℕ) (r : HttpResponse) (left : ℕ)
    → k < 2 ^ 63
    → IsMeasured k h r left
    → IsMeasured k h (last_chunk r).0 0
unfolding last_chunk
last_chunk-IsMeasured k h r left small m = elim (Bool-cases (no_body_length r)) [
  | inl e ↦ rw e (set_own_length-IsMeasured k h r 0 small (omega (arith, m.within)) m.head)
  | inr e ↦ rw e (IsMeasured-less k h r left 0 (omega arith) m)
]

pub length-drop {ℓ} : {A : Type ℓ} (n : ℕ) (xs : List A) → length (drop n xs) ≡ length xs - n
length-drop zero xs = omega arith
length-drop (suc n) [] = omega arith
length-drop (suc n) (x ∷ xs) = omega (arith, length-drop n xs)

abbrev pub Result : Type 0
Result = HttpResponse × Bytes × Bool

abbrev pub StaysMeasured : ℕ → ℕ → Result → Type 0
StaysMeasured k h (r, left, done) = IsMeasured k h r (length left)

module _ (k h : ℕ) (small : k < 2 ^ 63) where
  take_chunk-StaysMeasured :
      (next : HttpResponse → Bytes → Result) (r : HttpResponse) (text : Bytes)
      (found : Option (Bytes × Bytes))
      → find_text crlf text ≡ found
      → ((r' : HttpResponse) (text' : Bytes)
          → IsMeasured k h r' (length text')
          → StaysMeasured k h (next r' text'))
      → IsMeasured k h r (length text)
      → StaysMeasured k h (take_chunk next r text found)
  unfolding take_chunk
  take_chunk-StaysMeasured next r text none e go m = m
  take_chunk-StaysMeasured next r text (some (digits, behind)) e go m =
      let n = pos_part (to_int (strtol 16 (c_str digits))) in
      let r' = set_own_length (record r { content = r.content ++ take n behind }) in
      let shorter : length (r.content ++ take n behind) + length (drop (n + 2) behind) ≤ k = omega (
        arith,
        length-append r.content (take n behind),
        length-take n behind,
        length-drop (n + 2) behind,
        length-find_text crlf text digits behind e,
        m.within,
      ) in
      let later = go r' (drop (n + 2) behind) (
        set_own_length-IsMeasured k h (record r { content = r.content ++ take n behind })
          (length (drop (n + 2) behind)) small shorter m.head) in
      elim (Bool-cases (is_pos (to_int (strtol 16 (c_str digits))))) [
        | inr last ↦ rw (take_chunk, last) (last_chunk-IsMeasured k h r (length text) small m)
        | inl chunk ↦ elim (Bool-cases (leb (length digits + 2 + n + 2) (length text))) [
          | inl whole ↦ rw (take_chunk, chunk, whole) later
          | inr part ↦ rw (take_chunk, chunk, part) m
        ]
      ]

  pub chunk_loop-StaysMeasured :
      (fuel : ℕ) (r : HttpResponse) (text : Bytes)
      → IsMeasured k h r (length text)
      → StaysMeasured k h (chunk_loop fuel r text)
  unfolding chunk_loop
  chunk_loop-StaysMeasured zero r text m = m
  chunk_loop-StaysMeasured (suc fuel) r text m =
      take_chunk-StaysMeasured (λ (r' : HttpResponse) (t : Bytes). chunk_loop fuel r' t) r text
        (find_text crlf text) refl (λ r' t m'. chunk_loop-StaysMeasured fuel r' t m') m

pub is_whole-IsMeasured :
    (k h n : ℕ) (r : HttpResponse) (left : ℕ)
    → IsMeasured k h r left
    → k + h ≤ n
    → n < 2 ^ 63
    → is_whole n r ≡ true
is_whole-IsMeasured k h n r left m le small =
    let sum : get_content_length r.headers + r.head_length ≤ n =
      omega (arith, m.stated, m.within, m.head) in
    let enough : leb ((get_content_length r.headers + r.head_length) % 2 ^ 64) n ≡ true =
      ground arith in
    rw enough (ground arith)
