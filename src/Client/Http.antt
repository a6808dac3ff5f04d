-- ===== src/Client/Http.antt =====
-- Client.cpp, `SendHttp`, and `http` of Client.h, which calls it. The parser of the response,
-- TC_HttpResponse::decode, is an argument.
use test_frame.Prelude.{
  ℕ, ◌+◌, ◌==◌, ltb, ◌≡◌, ◌⊎◌, if◌then◌else◌, Bool, true, false, Option, none, some, ℤ, pos,
  pos_part, is_neg, int_pred, int_of_bits, to_bits, List, [], ◌∷◌, length, take, Bytes, eqb_bytes,
}
use test_frame.Client.{
  Client, Recv, received, failed, Network, Outcome, returns, waiting, out_of_bounds, connect_server,
  sent_all, sdk_success, sdk_err_socket, sdk_err_address, no_socket, chunk_size, fill, cleared,
  ends_loop, eintr,
}
use test_frame.Text.{strstr}

-- What the parser says of a text: it throws, it reads past the end of a string, it has not seen the
-- whole response, or it has, with the length of the content and the header "Connection".
pub data Decoded : Type 0 where
  thrown overread incomplete : Decoded
  complete : ℕ → Bytes → Decoded

abbrev pub header_end : Bytes
header_end = 13 ∷ 10 ∷ 13 ∷ 10 ∷ []

-- "close"
abbrev pub close_word : Bytes
close_word = 99 ∷ 108 ∷ 111 ∷ 115 ∷ 101 ∷ []

-- How the loop of `SendHttp` ends; the flag says that the socket was closed.
pub data HttpReceived : Type 0 where
  http_broke : Bytes → Bool → HttpReceived
  http_blocked : HttpReceived
  http_overran : HttpReceived

-- `total_size += size_recv`
abbrev pub int_plus : ℤ → ℕ → ℤ
int_plus total n = int_of_bits (to_bits 32 total + n)

-- The branches on what the parser says, for the chunk of the last packet.
unfoldable pub on_decoded : Decoded → Bytes → HttpReceived → HttpReceived
on_decoded thrown chunk rest = rest
on_decoded overread chunk rest = http_overran
on_decoded incomplete chunk rest = rest
on_decoded (complete body_len connection) chunk rest =
    if body_len == 0 then rest else http_broke chunk (eqb_bytes connection close_word)

module _ (decode : Bytes → Decoded) where
  -- `decode(chunk, total_size)`: the parser looks for the end of the header by strstr. If it is there, it
  -- copies `total_size` bytes of the chunk: that throws where the size is negative, and reads past the
  -- chunk where it is larger.
  unfoldable pub on_chunk : Option Bool → Bytes → ℤ → HttpReceived → HttpReceived
  unfolding on_decoded
  on_chunk none chunk total rest = http_overran
  on_chunk (some ahead) chunk total rest =
      if ahead
      then (if is_neg total
          then rest
          else (if ltb chunk_size (pos_part total)
              then http_overran
              else on_decoded (decode (take (pos_part total) chunk)) chunk rest))
      else rest

  -- The loop of `SendHttp`. After an error of no interest `total_size` falls by one.
  unfoldable pub receive_http : ℤ → List Recv → HttpReceived
  unfolding on_chunk strstr
  receive_http total [] = http_blocked
  receive_http total (failed errno ∷ rs) =
      let rest = receive_http (if errno == eintr then total else int_pred total) rs in
      if ends_loop errno then http_broke cleared false else rest
  receive_http total (received [] ∷ rs) = receive_http total rs
  receive_http total (received (b ∷ bs) ∷ rs) =
      let sum = int_plus total (length (take chunk_size (b ∷ bs))) in
      let rest = receive_http sum rs in
      on_chunk (strstr header_end (fill (b ∷ bs))) (fill (b ∷ bs)) sum rest

  unfoldable pub finish_http : Client → HttpReceived → Client × Outcome
  finish_http c (http_broke chunk closed) =
      (if closed then record c { sockfd = no_socket } else c, returns sdk_success chunk)
  finish_http c http_blocked = (c, waiting)
  finish_http c http_overran = (c, out_of_bounds)

  unfoldable pub talk_http : Network → Bytes → Bytes → Client × Option ℤ → Client × Outcome
  unfolding finish_http
  talk_http net http_buffer rsp (c, some code) = (c, returns code rsp)
  talk_http net http_buffer rsp (c, none) =
      if sent_all (net.send c.sockfd http_buffer) http_buffer
      then finish_http c (receive_http (pos 0) net.recvs)
      else (record c { sockfd = no_socket }, returns sdk_err_socket rsp)

  -- `SendHttp`, where `rsp` is what the caller's string holds.
  unfoldable pub send_http : Client → Network → Bytes → Bytes → Client × Outcome
  unfolding connect_server talk_http
  send_http c net http_buffer rsp = talk_http net http_buffer rsp (connect_server c net)

  -- The chunk is the cleared one, after an error or a timeout, or a packet of which the parser took
  -- the first bytes for a whole response with a body.
  abbrev pub IsHttpChunk : Bytes → Bool → Type 0
  IsHttpChunk chunk closed =
      ((chunk ≡ cleared) × (closed ≡ false))
      ⊎ ((bs : Bytes) × (n : ℕ) × (body_len : ℕ) × (connection : Bytes) × (chunk ≡ fill bs)
          × (decode (take n chunk) ≡ complete body_len connection)
          × (closed ≡ eqb_bytes connection close_word))

  abbrev IsGood : HttpReceived → Type 0
  IsGood (http_broke chunk closed) = IsHttpChunk chunk closed
  IsGood _ = Unit {0}

  -- How a call on client `c`, with `rsp` in the caller's string, may end.
  abbrev pub HttpEnds : Client → Bytes → Client → Outcome → Type 0
  HttpEnds c rsp c' (returns code r) =
      ((code ≡ sdk_success) × IsHttpChunk r false × (is_neg c'.sockfd ≡ false))
      ⊎ ((code ≡ sdk_success) × IsHttpChunk r true × (c'.sockfd ≡ no_socket))
      ⊎ ((code ≡ sdk_err_socket) × (r ≡ rsp) × (c'.sockfd ≡ no_socket))
      ⊎ ((code ≡ sdk_err_address) × (r ≡ rsp) × (c.addrs ≡ []) × (is_neg c'.sockfd ≡ false))
  HttpEnds c rsp c' waiting = is_neg c'.sockfd ≡ false
  HttpEnds c rsp c' out_of_bounds = is_neg c'.sockfd ≡ false
