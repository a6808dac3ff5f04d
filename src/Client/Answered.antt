-- ===== src/Client/Answered.antt =====
-- Client.cpp, `SendHttp`: what a response of a stated length makes of the call, where it comes in one
-- packet and where it comes in several.
use test_frame.Prelude.{
  ℕ, ◌-◌, ◌^◌, ◌≤◌, ◌<◌, ◌≡◌, refl, ap, ◌∙◌, if◌then◌else◌, Bool, true, false, leb, none, some, pos,
  List, ◌∷◌, ◌++◌, length, replicate, map, All, length-append, take-of_le, Bytes, codes, eqb_bytes,
  arith,
}
use test_frame.Response.{Field, get_header}
use test_frame.Response.Decode.{
  new_response, has_header, content_length, transfer_encoding, get_content_length, is_status,
  decode,
}
use test_frame.Response.Early.{redirects}
use test_frame.Response.Whole.{message, IsHead, read_head}
use test_frame.Response.Sized.{with_body, decode-sized}
use test_frame.Client.{
  Client, Recv, received, failed, Network, returns, connect_server, sent_all, sdk_success,
  no_socket, chunk_size, fill, cleared, eagain,
}
use test_frame.Client.Http.{http_broke, on_decoded, receive_http, finish_http, talk_http, send_http}
use test_frame.Client.Answers.{
  decoded_of, parser, receive_http-first, receive_http-passes, IsPassed,
}

-- A response of `size` bytes that `SendHttp` takes for one with a body.
pub record IsAnswer (first version reason : Bytes) (fields : List Field) (size : ℕ) : Type 0 where
  pub head : IsHead first version reason fields
  pub with_content : is_status 204 (read_head first version reason fields) ≡ false
  pub stays : redirects (read_head first version reason fields) ≡ false
  pub plain : eqb_bytes (get_header transfer_encoding fields) (codes "chunked") ≡ false
  pub has_length : has_header content_length fields ≡ true
  pub length_is : get_content_length fields ≡ size
  pub positive : 0 < size
  pub small : size < 2 ^ 63

decode-fill :
    (first version reason : Bytes) (fields : List Field) (body : Bytes) (size : ℕ)
    → let text = message first fields body in
      IsAnswer first version reason fields size
      → length text < chunk_size
      → decode (fill text) (length text) new_response
        ≡ some (
          with_body (length text - length body) size body (read_head first version reason fields),
          leb size (length body),
        )
unfolding fill
decode-fill first version reason fields body size a short =
    let text = message first fields body in
    let within : length text ≤ chunk_size = omega (arith, short) in
    let small : length text < 2 ^ 63 = omega (arith, short) in
    let zeros = replicate (chunk_size - length text) 0 in
    ap (λ (t : Bytes). decode (t ++ zeros) (length text) new_response)
      (take-of_le chunk_size text within)
    ∙ decode-sized first version reason fields body zeros size a.head a.with_content a.stays a.plain
        a.has_length a.length_is a.positive a.small small

receive_http-part :
    (first version reason : Bytes) (fields : List Field) (body : Bytes) (size : ℕ) (rs : List Recv)
    → let text = message first fields body in
      IsAnswer first version reason fields size
      → length text < chunk_size
      → length body < size
      → receive_http parser (pos 0) (received text ∷ rs)
        ≡ receive_http parser (pos (length text)) rs
unfolding on_decoded
receive_http-part first version reason fields body size rs a short part =
    let text = message first fields body in
    let rest = receive_http parser (pos (length text)) rs in
    let less : leb size (length body) ≡ false = ground arith in
    receive_http-first text rs (omega (arith, length-append first (13 ∷ 10 ∷ (_ ++ body)))) short
    ∙ ap (λ d. on_decoded (decoded_of d) (fill text) rest)
        (decode-fill first version reason fields body size a short)
    ∙ rw less refl

send_http-received :
    (c c' : Client) (net : Network) (http_buffer rsp chunk : Bytes) (closed : Bool)
    → connect_server c net ≡ (c', none)
    → sent_all (net.send c'.sockfd http_buffer) http_buffer ≡ true
    → receive_http parser (pos 0) net.recvs ≡ http_broke chunk closed
    → send_http parser c net http_buffer rsp
      ≡ (if closed then record c' { sockfd = no_socket } else c', returns sdk_success chunk)
unfolding send_http talk_http finish_http
send_http-received c c' net http_buffer rsp chunk closed connected sent received_it =
    ap (talk_http parser net http_buffer rsp) connected ∙ rw (sent, received_it)

-- A response with a stated length can be lost: if the first packet, of fewer than 1024 bytes, has the
-- header, with a length above 0, without the encoding "chunked" and with a status that is neither 204 nor
-- that of a redirection to a given place, and less of the body than that length, the packets behind it,
-- as short, have no end of a header of their own, and then a receive times out, `SendHttp`, on a client
-- that is connected or connects and where the system takes all of the request, returns SDK_SUCCESS with
-- 1024 NULs, also where all of the body has come.
pub send_http-lost :
    (first version reason : Bytes) (fields : List Field) (body : Bytes) (size : ℕ)
    → (c c' : Client) (net : Network) (http_buffer rsp : Bytes) (texts : List Bytes)
      (rs : List Recv)
    → let text = message first fields body in
      IsAnswer first version reason fields size
      → length text < chunk_size
      → length body < size
      → All IsPassed texts
      → connect_server c net ≡ (c', none)
      → sent_all (net.send c'.sockfd http_buffer) http_buffer ≡ true
      → net.recvs ≡ received text ∷ (map received texts ++ failed eagain ∷ rs)
      → send_http parser c net http_buffer rsp ≡ (c', returns sdk_success cleared)
send_http-lost first version reason fields body size c c' net http_buffer rsp texts rs a short part
      passed connected sent coming =
    send_http-received c c' net http_buffer rsp cleared false connected sent (
      ap (receive_http parser (pos 0)) coming
      ∙ receive_http-part first version reason fields body size
          (map received texts ++ failed eagain ∷ rs) a short part
      ∙ receive_http-passes (pos (length (message first fields body))) texts rs passed)
