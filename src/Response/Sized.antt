-- ===== src/Response/Sized.antt =====
-- tcinclude/tc_http.cpp, `decode` on a response whose header states the length of the body.
use test_frame.Prelude.{
  ℕ, ◌+◌, ◌-◌, ◌%◌, ◌^◌, ◌<◌, ◌≡◌, refl, ap, ◌∙◌, inl, inr, true, false, Bool-cases, ◌==◌, leb,
  some, List, [], ◌∷◌, ◌++◌, length, length-append, Bytes, codes, eqb_bytes, contains, arith,
}
use mathlib.Core.List.{append_assoc}
use test_frame.Config.Split.{cut}
use test_frame.Response.{Field, get_header, trim, upper}
use test_frame.Response.Fields.{render}
use test_frame.Response.Chunks.{take-append}
use test_frame.Response.Lengths.{length-find_text}
use test_frame.Response.Early.{redirects, set_status_content}
use test_frame.Response.Whole.{
  message, IsHead, read_head, find_text-render, contains_of_found, c_str-message,
  parse_response_header-message,
}
use test_frame.Response.Ends.{decode_of_found}
use test_frame.Response.Decode.{
  HttpResponse, new_response, crlf_crlf, c_str, blanks, has_header, erase_header, content_length,
  transfer_encoding, get_content_length, no_length, is_status, measured, decode_body, on_header,
  on_parsed, on_head, increment_decode, is_whole, decode, parse_response_header,
}

eqb_bytes-eq : (a b : Bytes) → eqb_bytes a b ≡ true → a ≡ b
eqb_bytes-eq [] [] h = refl
eqb_bytes-eq [] (y ∷ b) h = absurd (cc)
eqb_bytes-eq (x ∷ a) [] h = absurd (cc)
eqb_bytes-eq (x ∷ a) (y ∷ b) h =
    let same : x ≡ y = ground arith in
    let later : eqb_bytes a b ≡ true = ground arith in let rest = eqb_bytes-eq a b later in cc

pub get_header-erase_other :
    (name other : Bytes) (fields : List Field)
    → eqb_bytes (upper other) (upper name) ≡ false
    → get_header name (erase_header other fields) ≡ get_header name fields
unfolding get_header erase_header
get_header-erase_other name other [] h = refl
get_header-erase_other name other (f ∷ fields) h =
    let later = get_header-erase_other name other fields h in
    elim (Bool-cases (eqb_bytes (upper f.name) (upper other))) [
      | inl e ↦
          let differs : eqb_bytes (upper f.name) (upper name) ≡ false =
            rw (eqb_bytes-eq (upper f.name) (upper other) e) h in
          rw (e, differs) later
      | inr e ↦ rw (e, get_header, later) refl
    ]

get_content_length-erase :
    (fields : List Field)
    → get_content_length (erase_header transfer_encoding fields) ≡ get_content_length fields
unfolding get_content_length
get_content_length-erase fields =
    rw (get_header-erase_other content_length transfer_encoding fields refl) refl

-- The response with its body.
abbrev pub with_body : ℕ → ℕ → Bytes → HttpResponse → HttpResponse
with_body h size body r = record r {
  headers = erase_header transfer_encoding r.headers;
  head_length = h;
  content = body;
  is_chunked = false;
  tmp_content_length = size;
}

on_header-sized :
    (n size : ℕ) (r : HttpResponse) (body : Bytes)
    → r.content ≡ []
    → redirects r ≡ false
    → eqb_bytes (get_header transfer_encoding r.headers) (codes "chunked") ≡ false
    → has_header content_length r.headers ≡ true
    → get_content_length r.headers ≡ size
    → 0 < size
    → size < 2 ^ 63
    → on_header (measured n r) body ≡ (with_body (n + 4) size body r, [], leb size (length body))
unfolding on_header decode_body
on_header-sized n size r body nothing redirect plain has e positive small =
    let some_size : (size == 0) ≡ false = ground arith in
    let no_max : (size == no_length) ≡ false = ground arith in
    rw (on_header, redirect, plain, has, e, some_size, no_max, nothing)

is_whole-sized :
    (h size : ℕ) (body : Bytes) (r : HttpResponse)
    → get_content_length r.headers ≡ size
    → 0 < size
    → size < 2 ^ 63
    → h + length body < 2 ^ 63
    → is_whole (h + length body) (with_body h size body r) ≡ leb size (length body)
is_whole-sized h size body r e positive small fits =
    let some_size : (size == 0) ≡ false = ground arith in
    let no_max : (size == no_length) ≡ false = ground arith in
    let sum : leb ((size + h) % 2 ^ 64) (h + length body) ≡ leb size (length body) = ground arith in
    rw (get_content_length-erase r.headers, e, some_size, no_max) sum

pub read_head_content :
    (first version reason : Bytes) (fields : List Field)
    → (read_head first version reason fields).content ≡ []
read_head_content first version reason fields =
    let left = trim (32 ∷ reason) blanks true in
    set_status_content (length version) (cut (32 ∷ []) left) left
      (record new_response { header_line = first; version = version })

-- The end of the header is in the C string.
pub contains-message :
    (first version reason : Bytes) (fields : List Field) (body behind : Bytes)
    → IsHead first version reason fields
    → contains crlf_crlf (c_str (message first fields body ++ behind)) ≡ true
contains-message first version reason fields body behind v =
    let rest = body ++ behind in
    let (before, found) = find_text-render first fields (c_str rest) v.one_line v.are_fields in
    let assoc : message first fields body ++ behind ≡ message first fields rest =
      append_assoc first (13 ∷ 10 ∷ (render fields ++ body)) behind
      ∙ ap (λ (t : Bytes). first ++ 13 ∷ 10 ∷ t) (append_assoc (render fields) body behind) in
    ap (λ (t : Bytes). contains crlf_crlf (c_str t)) assoc
    ∙ ap (contains crlf_crlf) (c_str-message first version reason fields rest v)
    ∙ contains_of_found crlf_crlf (message first fields (c_str rest)) before (c_str rest) found

-- A response whose header states the length of the body, in an array with anything behind it: a first
-- line with a blank and fields that each stand on one line, without a NUL, where the status is neither
-- 204 nor that of a redirection to a given place and the encoding is not "chunked". `decode` of such a
-- response, the length L between 0 and 2 ^ 63, yields the status and the fields, but for
-- "Transfer-Encoding", and all the bytes behind the header as the content, and says that the response
-- is whole exactly where these are L bytes or more.
pub decode-sized :
    (first version reason : Bytes) (fields : List Field) (body behind : Bytes) (size : ℕ)
    → let r = read_head first version reason fields in
      let n = length (message first fields body) in
      IsHead first version reason fields
      → is_status 204 r ≡ false
      → redirects r ≡ false
      → eqb_bytes (get_header transfer_encoding fields) (codes "chunked") ≡ false
      → has_header content_length fields ≡ true
      → get_content_length fields ≡ size
      → 0 < size
      → size < 2 ^ 63
      → n < 2 ^ 63
      → decode (message first fields body ++ behind) n new_response
        ≡ some (with_body (n - length body) size body r, leb size (length body))
unfolding decode increment_decode on_head on_parsed
decode-sized first version reason fields body behind size v st redirect plain has e positive small
      fits =
    let r = read_head first version reason fields in
    let text = message first fields body in
    let n = length text in
    let (before, found) = find_text-render first fields body v.one_line v.are_fields in
    let ahead = contains-message first version reason fields body behind v in
    let parsed =
      ap (λ (t : Bytes). parse_response_header t new_response)
        (c_str-message first version reason fields body v)
      ∙ parse_response_header-message first version reason fields (c_str body) v in
    let sized =
      on_header-sized (length before) size r body (read_head_content first version reason fields)
        redirect plain has e positive small in
    let answer = with_body (length before + 4) size body r in
    let received = length-find_text crlf_crlf text before body found in
    let head : n - length body ≡ length before + 4 = omega (arith, received) in
    let total : n ≡ length before + 4 + length body = omega (arith, received) in
    let whole : is_whole n answer ≡ leb size (length body) =
      ap (λ k. is_whole k answer) total
      ∙ is_whole-sized (length before + 4) size body r e positive small (omega arith) in
    let read : increment_decode new_response text ≡ some (answer, [], leb size (length body)) =
      rw (increment_decode, found, on_head, parsed, on_parsed, st) (ap some sized) in
    decode_of_found (text ++ behind) n new_response ahead (omega (arith, length-append text behind))
    ∙ rw (take-append text behind, read, head) (ap (λ b. some (answer, b)) whole)
