-- ===== src/Response/Early.antt =====
-- tcinclude/tc_http.cpp, `decode` on a response in chunks: when it says that the response is whole.
use test_frame.Prelude.{
  ℕ, ◌+◌, ◌^◌, ◌≤◌, ◌<◌, ◌≡◌, refl, ap, ◌∙◌, Bool, true, false, ◌&&◌, ◌||◌, not, Option, none, some,
  List, [], ◌∷◌, is_empty, length, length-take, take, Bytes, codes, contains, arith,
}
use test_frame.Config.Split.{cut}
use test_frame.Response.{Field, get_header, get_line, parse_header, trim}
use test_frame.Response.Lengths.{
  length-find_text, get_content_length_missing, has_header-erase_header,
}
use test_frame.Response.Ends.{decode_of_found}
use test_frame.Response.Decode.{
  HttpResponse, new_response, crlf_crlf, c_str, find_text, has_header, erase_header, content_length,
  transfer_encoding, chunk_loop, decode_body, on_header, is_status, measured, on_parsed, on_head,
  increment_decode, is_whole, on_increment, decode, parse_response_header, on_first_line,
  set_status, with_headers, blanks,
}
use test_frame.Response.Measured.{IsMeasured, chunk_loop-StaysMeasured, is_whole-IsMeasured}

-- The state in which the chunks are read.
abbrev pub before_chunks : ℕ → HttpResponse → HttpResponse
before_chunks n r0 = record (measured n r0) {
  is_chunked = true;
  headers = erase_header transfer_encoding r0.headers;
}

abbrev pub redirects : HttpResponse → Bool
redirects r =
    (is_status 301 r || is_status 302 r) && not (is_empty (get_header (codes "Location") r.headers))

on_header-chunked :
    (n : ℕ) (r0 : HttpResponse) (text : Bytes)
    → redirects r0 ≡ false
    → get_header transfer_encoding r0.headers ≡ codes "chunked"
    → on_header (measured n r0) text ≡ chunk_loop (length text + 1) (before_chunks n r0) text
unfolding on_header decode_body
on_header-chunked n r0 text redirect chunked = rw (on_header, redirect, chunked)

-- The header is read without a change of the content.
abbrev Keeps : Bytes → Option HttpResponse → Type 0
Keeps content none = Unit {0}
Keeps content (some r) = r.content ≡ content

pub set_status_content :
    (n : ℕ) (parts : Bytes × Option Bytes) (left : Bytes) (r : HttpResponse)
    → (set_status n parts left r).content ≡ r.content
unfolding set_status
set_status_content n (before, none) left r = refl
set_status_content n (before, some behind) left r = refl

with_headers-Keeps :
    (content : Bytes) (o : Option (List Field)) (r : HttpResponse)
    → r.content ≡ content
    → Keeps content (with_headers o r)
with_headers-Keeps content none r e = tt
with_headers-Keeps content (some fields) r e = e

on_first_line-Keeps :
    (parts : Bytes × Option Bytes) (line : Bytes) (rest : Option Bytes) (r : HttpResponse)
    → Keeps r.content (on_first_line parts line rest r)
unfolding on_first_line
on_first_line-Keeps (version, none) line rest r = refl
on_first_line-Keeps (version, some behind) line none r = tt
on_first_line-Keeps (version, some behind) line (some rest) r =
    with_headers-Keeps r.content (parse_header rest) _ (
      set_status_content (length version) (cut (32 ∷ []) (trim (32 ∷ behind) blanks true))
        (trim (32 ∷ behind) blanks true) (record r { version = version }))

parse_response_header-Keeps :
    (text : Bytes) (r : HttpResponse) → Keeps r.content (parse_response_header text r)
unfolding parse_response_header
parse_response_header-Keeps text r =
    on_first_line-Keeps (cut (32 ∷ []) (trim (get_line text).0 blanks true))
      (trim (get_line text).0 blanks true) (get_line text).1
      (record r { header_line = trim (get_line text).0 blanks true })

before_chunks-IsMeasured :
    (n : ℕ) (r0 : HttpResponse) (behind : Bytes)
    → r0.content ≡ []
    → has_header content_length r0.headers ≡ false
    → IsMeasured (length behind) (n + 4) (before_chunks n r0) (length behind)
before_chunks-IsMeasured n r0 behind e missing = record {
  stated = omega (
    arith,
    get_content_length_missing (erase_header transfer_encoding r0.headers)
        (has_header-erase_header content_length transfer_encoding r0.headers missing),
  );
  within = omega (arith, ap (λ (c : Bytes). length c) e);
  head = refl;
}

-- What `decode` makes of such a response.
pub decode-chunks :
    (array : Bytes) (n : ℕ) (before behind : Bytes) (r0 : HttpResponse)
    → n < 2 ^ 63
    → n ≤ length array
    → contains crlf_crlf (c_str array) ≡ true
    → find_text crlf_crlf (take n array) ≡ some (before, behind)
    → parse_response_header (c_str (take n array)) new_response ≡ some r0
    → is_status 204 r0 ≡ false
    → redirects r0 ≡ false
    → get_header transfer_encoding r0.headers ≡ codes "chunked"
    → has_header content_length r0.headers ≡ false
    → decode array n new_response
      ≡ some ((chunk_loop (length behind + 1) (before_chunks (length before) r0) behind).0, true)
unfolding decode increment_decode on_head on_parsed
decode-chunks array n before behind r0 small inside ahead found parsed st redirect chunked missing =
    let kept : r0.content ≡ [] =
      rw parsed at (parse_response_header-Keeps (c_str (take n array)) new_response) in
    let start = before_chunks-IsMeasured (length before) r0 behind kept missing in
    let received = length-find_text crlf_crlf (take n array) before behind found in
    let fits : length behind + (length before + 4) ≤ n =
      omega (arith, received, length-take n array) in
    let last = chunk_loop (length behind + 1) (before_chunks (length before) r0) behind in
    let ends =
      chunk_loop-StaysMeasured (length behind) (length before + 4) (omega arith) (length behind + 1)
        (before_chunks (length before) r0) behind start in
    let whole : is_whole n last.0 ≡ true =
      is_whole-IsMeasured (length behind) (length before + 4) n last.0 (length last.1) ends fits
        small in
    let read : increment_decode new_response (take n array) ≡ some last =
      rw (increment_decode, found, on_head, parsed, on_parsed, st)
        (ap some (on_header-chunked (length before) r0 behind redirect chunked)) in
    decode_of_found array n new_response ahead inside ∙ ap (on_increment n) read ∙ rw whole

-- A chunked response is taken for whole before it is: once the end of a header with
-- "Transfer-Encoding: chunked" and without "Content-Length" is there, and the status is neither 204 nor
-- that of a redirection to a given place, `decode`, told to take no more bytes than the array has and
-- fewer than 2 ^ 63, says that the response is complete, whatever chunks have come, since it measures the
-- content by the length that it has set itself.
pub decode-chunked :
    (array : Bytes) (n : ℕ) (before behind : Bytes) (r0 : HttpResponse)
    → n < 2 ^ 63
    → n ≤ length array
    → contains crlf_crlf (c_str array) ≡ true
    → find_text crlf_crlf (take n array) ≡ some (before, behind)
    → parse_response_header (c_str (take n array)) new_response ≡ some r0
    → is_status 204 r0 ≡ false
    → redirects r0 ≡ false
    → get_header transfer_encoding r0.headers ≡ codes "chunked"
    → has_header content_length r0.headers ≡ false
    → (r : HttpResponse) × (decode array n new_response ≡ some (r, true))
decode-chunked array n before behind r0 small inside ahead found parsed st redirect chunked
      missing =
    (
      _,
      decode-chunks array n before behind r0 small inside ahead found parsed st redirect chunked
          missing,
    )
