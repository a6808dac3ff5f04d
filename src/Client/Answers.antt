-- ===== src/Client/Answers.antt =====
-- Client.cpp, `SendHttp`, with the parser that it uses, TC_HttpResponse of tcinclude/tc_http.cpp.
use test_frame.Prelude.{
  ℕ, ◌+◌, ◌%◌, ◌^◌, ◌≤◌, ◌<◌, ◌≡◌, ◌⊎◌, refl, ap, sym, suc, ◌-◌, true, replicate, ◌∙◌, inl, inr,
  if◌then◌else◌, Bool, false, Bool-cases, ltb, Option, none, some, ℤ, pos, List, [], ◌∷◌, ◌++◌,
  length, take, take-of_le, length-take, int_of_bits-eq_of_lt, map, All, Bytes, codes, contains,
  arith,
}
use native.Mathlib.Nat.{zero-add}
use test_frame.Response.{get_header}
use test_frame.Response.Decode.{
  HttpResponse, new_response, c_str, increment_decode, on_increment, decode,
}
use test_frame.Client.{Recv, received, failed, chunk_size, fill, cleared, eagain}
use test_frame.Client.Receive.{length-fill}
use test_frame.Text.{strstr}
use test_frame.Response.Ends.{
  IsText, contains-nul, strstr_of_found, strstr_of_missing, decode_of_found, decode_of_missing,
}
use test_frame.Client.Http.{
  Decoded, overread, incomplete, complete, header_end, HttpReceived, http_broke, int_plus,
  on_decoded, on_chunk, receive_http,
}

-- `getHeader("Connection")`
abbrev pub connection : HttpResponse → Bytes
connection r = get_header (codes "Connection") r.headers

abbrev pub decoded_of : Option (HttpResponse × Bool) → Decoded
decoded_of none = overread
decoded_of (some (r, whole)) =
    if whole then complete (length r.content) (connection r) else incomplete

-- `httpRsponse.decode(chunk, total_size)` of a fresh response, on the bytes that it copies, once the
-- end of the header was found.
unfoldable pub parser : Bytes → Decoded
unfolding increment_decode
parser text = decoded_of (on_increment (length text) (increment_decode new_response text))

pub header_end-IsText : IsText header_end
header_end-IsText = (refl, (refl, (refl, (refl, tt))))

-- A packet that leaves room for a NUL ends with one.
pub fill-ended : (bs : Bytes) → length bs < chunk_size → contains (0 ∷ []) (fill bs) ≡ true
unfolding fill
fill-ended bs h =
    let e : chunk_size - length bs ≡ suc (chunk_size - length bs - 1) = omega arith in
    rw (take-of_le chunk_size bs (omega arith), e)
      (contains-nul bs (replicate (chunk_size - length bs - 1) 0))

-- The loop looks for the end of the header and hands its bytes over as `decode` does.
pub on_chunk-decode :
    (chunk : Bytes) (n : ℕ) (rest : HttpReceived)
    → (contains (0 ∷ []) chunk ≡ true) ⊎ (contains header_end (c_str chunk) ≡ true)
    → length chunk ≡ chunk_size
    → n ≤ chunk_size
    → on_chunk parser (strstr header_end chunk) chunk (pos n) rest
      ≡ on_decoded (decoded_of (decode chunk n new_response)) chunk rest
unfolding on_chunk decode parser on_decoded
on_chunk-decode chunk n rest ends full fits =
    let inside : ltb chunk_size n ≡ false = ground arith in
    let copied : length (take n chunk) ≡ n = omega (arith, length-take n chunk) in
    let decoded = λ (o : Option (HttpResponse × Bool)). on_decoded (decoded_of o) chunk rest in
    elim (Bool-cases (contains header_end (c_str chunk))) [
      | inl h ↦
          let found = decode_of_found chunk n new_response h (omega (arith, full, fits)) in
          ap (λ o. on_chunk parser o chunk (pos n) rest)
            (strstr_of_found header_end chunk header_end-IsText (λ e. cc) h)
          ∙ rw (inside, parser, copied) refl
          ∙ ap decoded (sym found)
      | inr h ↦ elim ends [
        | inr ahead ↦ absurd (cc)
        | inl ended ↦
            ap (λ o. on_chunk parser o chunk (pos n) rest)
              (strstr_of_missing header_end chunk header_end-IsText h ended)
            ∙ ap decoded (sym (decode_of_missing chunk n new_response h ended))
      ]
    ]

pub int_plus-pos : (a n : ℕ) → a + n < 2 ^ 31 → int_plus (pos a) n ≡ pos (a + n)
int_plus-pos a n h =
    let same : a % 2 ^ 32 ≡ a = omega arith in rw same (int_of_bits-eq_of_lt (a + n) h)

-- The first packet, of fewer than 1024 bytes, and what follows it.
pub receive_http-first :
    (text : Bytes) (rs : List Recv)
    → 0 < length text
    → length text < chunk_size
    → receive_http parser (pos 0) (received text ∷ rs)
      ≡ on_decoded
          (decoded_of (decode (fill text) (length text) new_response))
          (fill text)
          (receive_http parser (pos (length text)) rs)
unfolding receive_http
receive_http-first [] rs some_byte small = absurd (omega arith)
receive_http-first (b ∷ bs) rs some_byte small =
    let text : Bytes = b ∷ bs in
    let whole : length (take chunk_size text) ≡ length text =
      ap (λ (t : Bytes). length t) (take-of_le chunk_size text (omega arith)) in
    let sum : int_plus (pos 0) (length (take chunk_size text)) ≡ pos (length text) =
      ap (int_plus (pos 0)) whole
      ∙ int_plus-pos 0 (length text) (omega arith)
      ∙ ap pos (zero-add (length text)) in
    let rest = receive_http parser (pos (length text)) rs in
    ap
      (λ t.
        on_chunk parser (strstr header_end (fill text)) (fill text) t (receive_http parser t rs))
      sum
    ∙ on_chunk-decode (fill text) (length text) rest (inl (fill-ended text small))
        (length-fill text) (omega arith)

-- A packet without the end of a header is passed over, and so is an interrupted call.
abbrev pub IsPassed : Bytes → Type 0
IsPassed text = (length text < chunk_size) × (contains header_end (c_str (fill text)) ≡ false)

pub receive_http-passes :
    (total : ℤ) (texts : List Bytes) (rs : List Recv)
    → All IsPassed texts
    → receive_http parser total (map received texts ++ failed eagain ∷ rs)
      ≡ http_broke cleared false
unfolding receive_http on_chunk
receive_http-passes total [] rs h = refl
receive_http-passes total ([] ∷ texts) rs h = receive_http-passes total texts rs h.1
receive_http-passes total ((b ∷ bs) ∷ texts) rs h =
    let text : Bytes = b ∷ bs in
    let none_there =
      strstr_of_missing header_end (fill text) header_end-IsText h.0.1 (fill-ended text h.0.0) in
    ap
      (λ o. on_chunk parser o (fill text) (int_plus total (length (take chunk_size text))) (
        receive_http parser (int_plus total (length (take chunk_size text)))
          (map received texts ++ failed eagain ∷ rs)))
      none_there
    ∙ (receive_http-passes (int_plus total (length (take chunk_size text))) texts rs h.1)
