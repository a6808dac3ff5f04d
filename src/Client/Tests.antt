-- ===== src/Client/Tests.antt =====
-- Runs of Client.cpp.
use test_frame.Prelude.{
  ℕ, zero, suc, ◌≡◌, ◌≢◌, refl, inr, pos, List, [], ◌∷◌, ◌++◌, length, replicate, Bytes, All, arith,
  if◌then◌else◌, ◌==◌,
}
use test_frame.Client.{
  Client, new_client, add_server, Recv, received, failed, Network, Outcome, returns, tcp_iot,
  receive_line, overran, fill, c_string, get_server, finish, sdk_err_address, sdk_success,
  no_socket, eagain, eintr,
}
use test_frame.Client.Receive.{receive_line-forgets, Passes}
use test_frame.Client.Bounds.{short-stays_in_bounds, full_packet-overruns}
use test_frame.Client.Reply.{unconnected-sends}
use test_frame.Client.Http.{
  Decoded, complete, incomplete, send_http, receive_http, header_end, close_word,
}

abbrev local : Bytes
local = 49 ∷ 50 ∷ 55 ∷ []

abbrev pub one_server : Client
one_server = add_server local 3000 new_client

-- "{}", a newline, and the end of a packet that was cut in two.
abbrev answer : Bytes
answer = 123 ∷ 125 ∷ 10 ∷ []

abbrev first_half : Bytes
first_half = 123 ∷ []

abbrev second_half : Bytes
second_half = 125 ∷ 10 ∷ []

abbrev pub line_up : List Recv → Network
line_up rs = record {
  socket = pos 7;
  rand = 5;
  connect = λ fd a. pos 0;
  send = λ fd buf. pos (length buf);
  recvs = rs;
}

passes : All Passes (failed eintr ∷ received first_half ∷ [])
unfolding fill c_string
passes = (refl, (inr (first_half, refl, refl), tt))

first_half_forgotten :
    receive_line (failed eintr ∷ received first_half ∷ received second_half ∷ [])
    ≡ receive_line (received second_half ∷ [])
first_half_forgotten =
    receive_line-forgets (failed eintr ∷ received first_half ∷ []) (received second_half ∷ [])
      passes

answer_in_bounds : receive_line (received answer ∷ []) ≢ overran
answer_in_bounds = short-stays_in_bounds (received answer ∷ []) (omega arith, tt)

no_nul : (n : ℕ) → All {A = ℕ} (λ b. b ≢ 0) (replicate n 65)
no_nul zero = tt
no_nul (suc n) = (omega arith, no_nul n)

full_packet : receive_line (received (replicate 1024 65) ∷ []) ≡ overran
full_packet = full_packet-overruns (replicate 1024 65) [] refl (no_nul 1024)

abbrev asked : Client × Outcome
asked = tcp_iot one_server (line_up (received answer ∷ [])) answer []

answered : asked.1 ≡ returns sdk_success (fill answer)
unfolding tcp_iot get_server receive_line fill c_string
answered = refl

abbrev quiet_line : Network
quiet_line = line_up (failed eagain ∷ [])

unconnected_sent :
    ((tcp_iot new_client quiet_line answer []).1 ≡ returns sdk_err_address [])
    × ((tcp_iot (tcp_iot new_client quiet_line answer []).0 quiet_line answer []).1
        ≡ finish (receive_line quiet_line.recvs))
unconnected_sent = unconnected-sends new_client quiet_line quiet_line answer [] refl refl refl refl

abbrev http_answer : Bytes
http_answer = 79 ∷ 75 ∷ header_end ++ 33 ∷ []

abbrev parser : Bytes → Decoded
parser text = if length text == 7 then complete 1 close_word else incomplete

abbrev http_call : Client × Outcome
http_call = send_http parser one_server (line_up (received http_answer ∷ [])) answer []

http_answered :
    http_call ≡ (record one_server { sockfd = no_socket }, returns sdk_success (fill http_answer))
unfolding send_http get_server receive_http fill c_string
http_answered = refl
