-- ===== src/Response/Runs.antt =====
-- Runs of TC_HttpResponse::decode.
use test_frame.Prelude.{
  ◌==◌, ◌≡◌, refl, true, some, ◌++◌, List, [], ◌∷◌, Bytes, codes, length, Option, Bool, none, ◌≢◌,
  ◌-◌, leb, arith, inl,
}
use test_frame.Text.{decimal, decimal_loop, strtol, signed_in, digits_in, skip_prefix, strstr}
use test_frame.Config.Split.{cut, strtoul, signed_value, digits_value}
use test_frame.Response.{
  get_header, parse_header, header_loop, on_line, get_line, field_of, field_of_parts, trim,
  trim_left, trim_right, trim_left_bytes, trim_right_bytes,
}
use test_frame.Text.Hex.{hex, hex_loop}
use test_frame.Response.Fields.{written}
use test_frame.Response.Bounds.{decode-ne-none}
use test_frame.Response.Overload.{decode_string, decode-string}
use test_frame.Response.Fuel.{chunk_loop-fuel}
use test_frame.Response.Chunks.{render_chunks, joined}
use test_frame.Response.Early.{decode-chunked}
use test_frame.Response.Whole.{message, read_head, parse_response_header-message}
use test_frame.Response.Sized.{with_body, decode-sized}
use test_frame.Response.Chunked.{decode-render_chunks}
use test_frame.Response.Examples.{
  none_of, first, version, reason, sized_fields, chunked_fields, in_chunks, sized_fields-IsHead,
  chunked_fields-IsHead, with_content, stays, sized_length,
}
use test_frame.Response.Decode.{
  HttpResponse, new_response, decode, copy_bytes, increment_decode, on_head, on_parsed, on_header,
  decode_body, chunk_loop, take_chunk, last_chunk, set_content_length, get_content_length,
  has_header, erase_header, parse_response_header, on_first_line, set_status, find_text, c_str,
  crlf,
}

abbrev ok_line : Bytes
ok_line = codes "HTTP/1.1 200 OK" ++ crlf

abbrev sized : Bytes
sized = ok_line ++ (codes "Content-Length: 2" ++ (crlf ++ (crlf ++ codes "hi")))

abbrev chunked : Bytes
chunked =
    ok_line
    ++ (codes "Transfer-Encoding: chunked"
        ++ (crlf
            ++ (crlf
                ++ (codes "2"
                    ++ (crlf ++ (codes "hi" ++ (crlf ++ (codes "0" ++ (crlf ++ crlf)))))))))

-- The text, in an array that ends with a NUL.
abbrev decoded : Bytes → Option (HttpResponse × Bool)
decoded text = decode (text ++ 0 ∷ []) (length text) new_response

abbrev outcome : Option (HttpResponse × Bool) → Option (Bytes × Bool)
outcome none = none
outcome (some (r, whole)) = some (r.content, whole)

sized_body : outcome (decoded sized) ≡ some (codes "hi", true)
unfolding decode strstr copy_bytes increment_decode on_head on_parsed on_header decode_body
    chunk_loop take_chunk last_chunk set_content_length get_content_length has_header erase_header
    parse_response_header on_first_line set_status find_text c_str get_header parse_header
    header_loop on_line get_line field_of field_of_parts trim trim_left trim_right trim_left_bytes
    trim_right_bytes cut decimal decimal_loop strtol signed_in digits_in skip_prefix strtoul
    signed_value digits_value
sized_body = refl

chunked_body : outcome (decoded chunked) ≡ some (codes "hi", true)
unfolding decode strstr copy_bytes increment_decode on_head on_parsed on_header decode_body
    chunk_loop take_chunk last_chunk set_content_length get_content_length has_header erase_header
    parse_response_header on_first_line set_status find_text c_str get_header parse_header
    header_loop on_line get_line field_of field_of_parts trim trim_left trim_right trim_left_bytes
    trim_right_bytes cut decimal decimal_loop strtol signed_in digits_in skip_prefix strtoul
    signed_value digits_value
chunked_body = refl

decode-ne-none_example : decode (sized ++ 0 ∷ []) (length sized) new_response ≢ none
decode-ne-none_example =
    decode-ne-none (sized ++ 0 ∷ []) (length sized) new_response (inl refl) (omega arith)

-- Two bytes of a body of two.
decode-sized_example :
    decode
      (message first sized_fields (codes "hi") ++ 0 ∷ [])
      (length (message first sized_fields (codes "hi")))
      new_response
    ≡ some (
      with_body
          (length (message first sized_fields (codes "hi")) - 2)
          2
          (codes "hi")
          (read_head first version reason sized_fields),
      leb 2 2,
    )
unfolding has_header get_header
decode-sized_example =
    decode-sized first version reason sized_fields (codes "hi") (0 ∷ []) 2 sized_fields-IsHead
      (with_content sized_fields) (stays sized_fields) refl refl sized_length (omega arith)
      (omega arith) (omega arith)

abbrev two_chunks : List Bytes
two_chunks = codes "he" ∷ codes "y" ∷ []

abbrev chunked_text : Bytes
chunked_text = message first chunked_fields (render_chunks two_chunks crlf)

decode-render_chunks_example :
    (r : HttpResponse) × (decode (chunked_text ++ 0 ∷ []) (length chunked_text) new_response
      ≡ some (r, true))
    × (r.content ≡ joined two_chunks)
unfolding has_header get_header hex hex_loop
decode-render_chunks_example =
    decode-render_chunks first version reason chunked_fields two_chunks crlf (0 ∷ [])
      chunked_fields-IsHead (with_content chunked_fields) (stays chunked_fields) refl refl
      ((omega arith, omega arith), ((omega arith, omega arith), tt)) (omega arith)

-- Three bytes of a chunk of five.
abbrev cut_off : Bytes
cut_off = message first chunked_fields (codes "5" ++ (crlf ++ codes "hel"))

decode-chunked_example :
    (r : HttpResponse) × (decode (cut_off ++ 0 ∷ []) (length cut_off) new_response ≡ some (r, true))
unfolding has_header get_header find_text c_str
decode-chunked_example =
    decode-chunked (cut_off ++ 0 ∷ []) (length cut_off) (first ++ 13 ∷ 10 ∷ written in_chunks)
      (codes "5" ++ (crlf ++ codes "hel")) (read_head first version reason chunked_fields)
      (omega arith) (omega arith) refl refl
      (parse_response_header-message first version reason chunked_fields
        (codes "5" ++ (crlf ++ codes "hel")) chunked_fields-IsHead)
      (with_content chunked_fields) (stays chunked_fields) refl refl

chunk_loop-fuel_example :
    chunk_loop 4 new_response (codes "0" ++ crlf) ≡ chunk_loop 9 new_response (codes "0" ++ crlf)
chunk_loop-fuel_example =
    chunk_loop-fuel 4 9 new_response (codes "0" ++ crlf) (omega arith) (omega arith)

sized_string :
    decode (sized ++ 0 ∷ []) (length sized) new_response ≡ decode_string sized new_response
sized_string = decode-string sized [] new_response (none_of (λ c. c == 0) sized refl)
