-- ===== src/Client/Overread.antt =====
-- Client.cpp, `SendHttp`: a header that comes in several packets, which are too much for the buffer.
use test_frame.Prelude.{
  ℕ, ◌+◌, ◌^◌, ◌≤◌, ◌<◌, ◌≡◌, ◌≢◌, refl, ap, ◌∙◌, true, ltb, Option, none, some, ℤ, pos, List, [],
  ◌∷◌, ◌++◌, length, take, take-of_le, map, All, Bytes, contains, arith,
}
use test_frame.Response.Decode.{c_str}
use test_frame.Response.Ends.{strstr_of_found, strstr_of_missing}
use test_frame.Client.{
  Client, Recv, received, Network, out_of_bounds, connect_server, sent_all, chunk_size, fill,
}
use test_frame.Client.Http.{
  Decoded, header_end, http_overran, int_plus, on_chunk, receive_http, finish_http, talk_http,
  send_http,
}
use test_frame.Client.Answers.{IsPassed, header_end-IsText, fill-ended, int_plus-pos}

-- The bytes of some packets.
abbrev pub size_of : List Bytes → ℕ
size_of [] = 0
size_of (text ∷ texts) = length text + size_of texts

-- `total_size += size_recv`
sum_of_packet :
    (n : ℕ) (text : Bytes)
    → length text ≤ chunk_size
    → n + length text < 2 ^ 31
    → int_plus (pos n) (length (take chunk_size text)) ≡ pos (n + length text)
sum_of_packet n text le small =
    ap (λ (t : Bytes). int_plus (pos n) (length t)) (take-of_le chunk_size text le)
    ∙ int_plus-pos n (length text) small

module _ (decode : Bytes → Decoded) where
  receive_http-passed :
      (n : ℕ) (texts : List Bytes) (rs : List Recv)
      → All IsPassed texts
      → n + size_of texts < 2 ^ 31
      → receive_http decode (pos n) (map received texts ++ rs)
        ≡ receive_http decode (pos (n + size_of texts)) rs
  unfolding receive_http on_chunk
  receive_http-passed n [] rs h small =
      let same : n ≡ n + 0 = omega arith in ap (λ (k : ℕ). receive_http decode (pos k) rs) same
  receive_http-passed n ([] ∷ texts) rs h small =
      let same : n + size_of texts ≡ n + (0 + size_of texts) = omega arith in
      receive_http-passed n texts rs h.1 (omega arith)
      ∙ ap (λ (k : ℕ). receive_http decode (pos k) rs) same
  receive_http-passed n ((b ∷ bs) ∷ texts) rs h small =
      let text : Bytes = b ∷ bs in
      let none_there =
        strstr_of_missing header_end (fill text) header_end-IsText h.0.1 (fill-ended text h.0.0) in
      let sum = sum_of_packet n text (omega (arith, h.0.0)) (omega arith) in
      let later = λ (t : ℤ). receive_http decode t (map received texts ++ rs) in
      let same : n + length text + size_of texts ≡ n + (length text + size_of texts) =
        omega arith in
      ap
        (λ (o : Option _).
          on_chunk decode o (fill text) (int_plus (pos n) (length (take chunk_size text)))
            (later (int_plus (pos n) (length (take chunk_size text)))))
        none_there
      ∙ ap later sum
      ∙ receive_http-passed (n + length text) texts rs h.1 (omega arith)
      ∙ ap (λ (k : ℕ). receive_http decode (pos k) rs) same

  receive_http-overreads :
      (n : ℕ) (text : Bytes) (rs : List Recv)
      → text ≢ []
      → length text ≤ chunk_size
      → contains header_end (c_str (fill text)) ≡ true
      → chunk_size < n + length text
      → n + length text < 2 ^ 31
      → receive_http decode (pos n) (received text ∷ rs) ≡ http_overran
  unfolding receive_http on_chunk
  receive_http-overreads n [] rs some_byte le ahead past small = absurd (some_byte refl)
  receive_http-overreads n (b ∷ bs) rs some_byte le ahead past small =
      let text : Bytes = b ∷ bs in
      let found = strstr_of_found header_end (fill text) header_end-IsText (λ e. cc) ahead in
      let over : ltb chunk_size (n + length text) ≡ true = ground arith in
      ap
        (λ (o : Option _).
          on_chunk decode o (fill text) (int_plus (pos n) (length (take chunk_size text)))
            (receive_http decode (int_plus (pos n) (length (take chunk_size text))) rs))
        found
      ∙ ap (λ (t : ℤ). on_chunk decode (some true) (fill text) t (receive_http decode t rs))
          (sum_of_packet n text le small)
      ∙ rw over refl

  -- A header that comes in several packets of more than 1024 bytes together is read behind the buffer,
  -- whatever the decoder makes of it: if the packets before are shorter than 1024 bytes and hold no end
  -- of a header, and the next one, of at most 1024 bytes, does in front of its first NUL, and all of
  -- them together are more than 1024 and fewer than 2 ^ 31 bytes, then `SendHttp`, on a client that is
  -- connected or connects and where the system takes all of the request, hands `decode` the sum of their
  -- sizes for the last packet alone, and reads behind the 1024 bytes.
  pub send_http-overreads :
      (c c' : Client) (net : Network) (http_buffer rsp : Bytes) (texts : List Bytes) (text : Bytes)
      (rs : List Recv)
      → All IsPassed texts
      → text ≢ []
      → length text ≤ chunk_size
      → contains header_end (c_str (fill text)) ≡ true
      → chunk_size < size_of texts + length text
      → size_of texts + length text < 2 ^ 31
      → connect_server c net ≡ (c', none)
      → sent_all (net.send c'.sockfd http_buffer) http_buffer ≡ true
      → net.recvs ≡ map received texts ++ received text ∷ rs
      → send_http decode c net http_buffer rsp ≡ (c', out_of_bounds)
  unfolding send_http talk_http finish_http
  send_http-overreads c c' net http_buffer rsp texts text rs passed some_byte le ahead past small
        connected sent coming =
      let overran : receive_http decode (pos 0) net.recvs ≡ http_overran =
        ap (receive_http decode (pos 0)) coming
        ∙ receive_http-passed 0 texts (received text ∷ rs) passed (omega arith)
        ∙ receive_http-overreads (0 + size_of texts) text rs some_byte le ahead (omega arith)
            (omega arith) in
      ap (talk_http decode net http_buffer rsp) connected ∙ rw (sent, overran) refl
