-- ===== src/Response/Chunked.antt =====
-- tcinclude/tc_http.cpp, `decode` on a response whose body is in chunks, all of which have come.
use test_frame.Prelude.{
  ◌+◌, ◌^◌, ◌≤◌, ◌<◌, ◌≡◌, ap, ◌∙◌, true, false, some, List, [], ◌∷◌, ◌++◌, length, length-append,
  All, Bytes, codes, arith,
}
use test_frame.Text.Hex.{hex}
use test_frame.Response.{Field, get_header}
use test_frame.Response.Chunks.{render_chunks, joined, IsSized, chunk_loop-render, take-append}
use test_frame.Response.Early.{redirects, before_chunks, decode-chunks}
use test_frame.Response.Whole.{
  message, IsHead, read_head, find_text-render, c_str-message, parse_response_header-message,
}
use test_frame.Response.Sized.{contains-message, read_head_content}
use test_frame.Response.Decode.{
  HttpResponse, new_response, c_str, has_header, content_length, transfer_encoding, is_status,
  chunk_loop, decode, parse_response_header,
}

length-render_chunks : (cs : List Bytes) (rest : Bytes) → length cs ≤ length (render_chunks cs rest)
length-render_chunks [] rest = omega arith
length-render_chunks (c ∷ cs) rest =
    let more = render_chunks cs rest in
    omega (
      arith,
      length-append (hex (length c)) (13 ∷ 10 ∷ (c ++ 13 ∷ 10 ∷ more)),
      length-append c (13 ∷ 10 ∷ more),
      length-render_chunks cs rest,
    )

-- A response in chunks, in an array with anything behind it: a first line with a blank and fields that
-- each stand on one line, without a NUL, the encoding "chunked" and no length among them, where the
-- status is neither 204 nor that of a redirection to a given place. If all its chunks have come, each
-- smaller than 2 ^ 31 and not empty, `decode` says that it is whole, and its content is the chunks put
-- together.
pub decode-render_chunks :
    (first version reason : Bytes) (fields : List Field) (cs : List Bytes) (rest behind : Bytes)
    → let r0 = read_head first version reason fields in
      let text = message first fields (render_chunks cs rest) in
      IsHead first version reason fields
      → is_status 204 r0 ≡ false
      → redirects r0 ≡ false
      → get_header transfer_encoding fields ≡ codes "chunked"
      → has_header content_length fields ≡ false
      → All IsSized cs
      → length text < 2 ^ 63
      → (r : HttpResponse) × (decode (text ++ behind) (length text) new_response ≡ some (r, true))
        × (r.content ≡ joined cs)
decode-render_chunks first version reason fields cs rest behind v st redirect chunked missing sized
      fits =
    let r0 = read_head first version reason fields in
    let body = render_chunks cs rest in
    let text = message first fields body in
    let (before, found) = find_text-render first fields body v.one_line v.are_fields in
    let taken = take-append text behind in
    let parsed =
      ap (λ (t : Bytes). parse_response_header t new_response)
        (ap c_str taken ∙ c_str-message first version reason fields body v)
      ∙ parse_response_header-message first version reason fields (c_str body) v in
    let chunks =
      chunk_loop-render (length body + 1) cs rest (before_chunks (length before) r0)
        (omega (arith, length-render_chunks cs rest)) sized in
    let decoded =
      decode-chunks (text ++ behind) (length text) before body r0 fits
        (omega (arith, length-append text behind))
        (contains-message first version reason fields body behind v) (rw taken found) parsed st
        redirect chunked missing in
    (
      (chunk_loop (length body + 1) (before_chunks (length before) r0) body).0,
      decoded,
      chunks.0 ∙ ap (λ (b : Bytes). b ++ joined cs) (read_head_content first version reason fields),
    )
