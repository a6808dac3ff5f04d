-- ===== src/Response/Chunks.antt =====
-- tcinclude/tc_http.cpp, `incrementDecode`: a body in chunks, written and read back.
use test_frame.Prelude.{
  ℕ, zero, suc, ◌+◌, ◌^◌, ◌≤◌, ◌<◌, ◌≡◌, refl, ap, ◌∙◌, Bool, true, false, ◌==◌, leb, some, pos,
  is_pos, List, [], ◌∷◌, ◌++◌, length, length-append, take, drop, All, Bytes, starts_with, arith,
}
use mathlib.Core.List.{append_assoc, append-nil}
use native.Mathlib.Nat.{zero-add, suc-add}
use test_frame.Text.{strtol, to_int}
use test_frame.Text.Hex.{hex, IsHexDigit, hex-IsHexDigit, strtol-hex}
use test_frame.Response.Decode.{
  HttpResponse, c_str, find_text, crlf, set_own_length, set_content_length, last_chunk, take_chunk,
  chunk_loop,
}

-- A byte that is no carriage return.
abbrev pub IsNoReturn : ℕ → Type 0
IsNoReturn c = (c == 13) ≡ false

pub find_text-cons :
    (s : Bytes) (c : ℕ) (text before behind : Bytes)
    → starts_with s (c ∷ text) ≡ false
    → find_text s text ≡ some (before, behind)
    → find_text s (c ∷ text) ≡ some (c ∷ before, behind)
unfolding find_text
find_text-cons s c text before behind other later = rw (find_text, other, later)

pub find_text-crlf :
    (a rest : Bytes) → All IsNoReturn a → find_text crlf (a ++ 13 ∷ 10 ∷ rest) ≡ some (a, rest)
unfolding find_text
find_text-crlf [] rest h = refl
find_text-crlf (c ∷ a) rest h =
    find_text-cons crlf c (a ++ 13 ∷ 10 ∷ rest) a rest (ground (arith, h.0))
      (find_text-crlf a rest h.1)

IsHexDigit-IsNoReturn : (a : Bytes) → All IsHexDigit a → All IsNoReturn a
IsHexDigit-IsNoReturn [] h = tt
IsHexDigit-IsNoReturn (c ∷ a) h = (ground (arith, h.0), IsHexDigit-IsNoReturn a h.1)

c_str-digits : (a : Bytes) → All IsHexDigit a → c_str a ≡ a
unfolding c_str
c_str-digits [] h = refl
c_str-digits (c ∷ a) h =
    let byte : (c == 0) ≡ false = ground (arith, h.0) in rw (byte, c_str-digits a h.1)

pub take-append {ℓ} : {A : Type ℓ} (xs ys : List A) → take (length xs) (xs ++ ys) ≡ xs
take-append [] ys = refl
take-append (x ∷ xs) ys = ap (◌∷◌ x) (take-append xs ys)

pub drop-append {ℓ} :
    {A : Type ℓ} (n : ℕ) (xs ys : List A) → drop (length xs + n) (xs ++ ys) ≡ drop n ys
drop-append n [] ys = rw (zero-add n)
drop-append n (x ∷ xs) ys = rw (suc-add (length xs) n) (drop-append n xs ys)

-- The chunks, each with its size in hexadecimal in front, the empty chunk, and what follows.
abbrev pub render_chunks : List Bytes → Bytes → Bytes
render_chunks [] rest = hex 0 ++ 13 ∷ 10 ∷ rest
render_chunks (c ∷ cs) rest = hex (length c) ++ 13 ∷ 10 ∷ (c ++ 13 ∷ 10 ∷ render_chunks cs rest)

abbrev pub joined : List Bytes → Bytes
joined [] = []
joined (c ∷ cs) = c ++ joined cs

-- A chunk is not empty, and its size is an `int`.
abbrev pub IsSized : Bytes → Type 0
IsSized c = (0 < length c) × (length c < 2 ^ 31)

take_chunk-next :
    (next : HttpResponse → Bytes → HttpResponse × Bytes × Bool) (r : HttpResponse)
    (text digits behind : Bytes) (n : ℕ)
    → to_int (strtol 16 (c_str digits)) ≡ pos n
    → 0 < n
    → length digits + 2 + n + 2 ≤ length text
    → take_chunk next r text (some (digits, behind))
      ≡ next
          (set_own_length (record r { content = r.content ++ take n behind }))
          (drop (n + 2) behind)
unfolding take_chunk
take_chunk-next next r text digits behind n size some_size fits =
    let positive : is_pos (pos n) ≡ true = ground arith in
    let enough : leb (length digits + 2 + n + 2) (length text) ≡ true = ground arith in
    rw (take_chunk, size, positive, enough)

take_chunk-last :
    (next : HttpResponse → Bytes → HttpResponse × Bytes × Bool) (r : HttpResponse)
    (text digits behind : Bytes)
    → to_int (strtol 16 (c_str digits)) ≡ pos 0
    → take_chunk next r text (some (digits, behind)) ≡ last_chunk r
unfolding take_chunk
take_chunk-last next r text digits behind size = rw (take_chunk, size)

-- The round trip of a chunked body: chunks that are not empty and smaller than 2 ^ 31, each with its
-- size in hexadecimal in front, are put together again behind what the response holds already, all the
-- text is taken, and the body counts as complete.
pub chunk_loop-render :
    (fuel : ℕ) (cs : List Bytes) (rest : Bytes) (r : HttpResponse)
    → length cs < fuel
    → All IsSized cs
    → ((chunk_loop fuel r (render_chunks cs rest)).0.content ≡ r.content ++ joined cs)
      × ((chunk_loop fuel r (render_chunks cs rest)).1 ≡ [])
      × ((chunk_loop fuel r (render_chunks cs rest)).2 ≡ true)
unfolding chunk_loop last_chunk set_content_length
chunk_loop-render zero cs rest r h v = absurd (omega arith)
chunk_loop-render (suc fuel) [] rest r h v =
    let next = λ (r' : HttpResponse) (text : Bytes). chunk_loop fuel r' text in
    let digits = hex-IsHexDigit 0 in
    let found = find_text-crlf (hex 0) rest (IsHexDigit-IsNoReturn (hex 0) digits) in
    let size : to_int (strtol 16 (c_str (hex 0))) ≡ pos 0 =
      rw (c_str-digits (hex 0) digits) (strtol-hex 0 (omega arith)) in
    let step =
      ap (take_chunk next r (render_chunks [] rest)) found
      ∙ take_chunk-last next r (render_chunks [] rest) (hex 0) rest size in
    rw step (ground (arith, append-nil r.content), refl, refl)
chunk_loop-render (suc fuel) (c ∷ cs) rest r h v =
    let next = λ (r' : HttpResponse) (text : Bytes). chunk_loop fuel r' text in
    let more = render_chunks cs rest in
    let text = render_chunks (c ∷ cs) rest in
    let digits = hex-IsHexDigit (length c) in
    let found =
      find_text-crlf (hex (length c)) (c ++ 13 ∷ 10 ∷ more)
        (IsHexDigit-IsNoReturn (hex (length c)) digits) in
    let size : to_int (strtol 16 (c_str (hex (length c)))) ≡ pos (length c) =
      rw (c_str-digits (hex (length c)) digits) (strtol-hex (length c) v.0.1) in
    let fits : length (hex (length c)) + 2 + length c + 2 ≤ length text = omega (
      arith,
      length-append (hex (length c)) (13 ∷ 10 ∷ (c ++ 13 ∷ 10 ∷ more)),
      length-append c (13 ∷ 10 ∷ more),
    ) in
    let r' = set_own_length (record r { content = r.content ++ c }) in
    let behind = c ++ 13 ∷ 10 ∷ more in
    let after : Bytes → Bytes → HttpResponse × Bytes × Bool =
      λ chunk left. next (set_own_length (record r { content = r.content ++ chunk })) left in
    let taken : after (take (length c) behind) (drop (length c + 2) behind) ≡ after c more =
      ap (λ (chunk : Bytes). after chunk (drop (length c + 2) behind))
        (take-append c (13 ∷ 10 ∷ more))
      ∙ ap (after c) (drop-append 2 c (13 ∷ 10 ∷ more)) in
    let step =
      ap (take_chunk next r text) found
      ∙ take_chunk-next next r text (hex (length c)) behind (length c) size v.0.0 fits
      ∙ taken in
    let rest_of = chunk_loop-render fuel cs rest r' (omega arith) v.1 in
    rw step (rest_of.0 ∙ append_assoc r.content c (joined cs), rest_of.1, rest_of.2)
