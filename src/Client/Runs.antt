-- ===== src/Client/Runs.antt =====
-- Runs of `SendHttp` with TC_HttpResponse: a response in one packet, and the same in two.
use test_frame.Prelude.{◌≡◌, ◌++◌, refl, replicate, pos, [], ◌∷◌, codes, Bytes, List, arith}
use test_frame.Response.{get_header}
use test_frame.Response.Decode.{has_header, c_str}
use test_frame.Response.Whole.{message}
use test_frame.Response.Examples.{
  first, version, reason, sized_fields, sized_fields-IsHead, with_content, stays, sized_length,
}
use test_frame.Client.{
  Client, Recv, received, failed, returns, connect_server, connect_to, get_server, sdk_success,
  out_of_bounds, fill, cleared, eagain,
}
use test_frame.Client.Http.{send_http, header_end}
use test_frame.Client.Answers.{parser}
use test_frame.Client.Answered.{IsAnswer, send_http-lost}
use test_frame.Client.Overread.{send_http-overreads}
use test_frame.Client.Tests.{one_server, line_up}

sized_fields-IsAnswer : IsAnswer first version reason sized_fields 2
unfolding has_header get_header
sized_fields-IsAnswer = record {
  head = sized_fields-IsHead;
  with_content = with_content sized_fields;
  stays = stays sized_fields;
  plain = refl;
  has_length = refl;
  length_is = sized_length;
  positive = omega arith;
  small = omega arith;
}

abbrev connected : Client
connected = record one_server { sockfd = pos 7 }

abbrev request : Bytes
request = codes "GET / HTTP/1.1"

abbrev whole : Bytes
whole = message first sized_fields (codes "hi")

abbrev in_parts : List Recv
in_parts =
    received (message first sized_fields (codes "h")) ∷ received (codes "i") ∷ failed eagain ∷ []

send_http-lost_example :
    send_http parser one_server (line_up in_parts) request []
    ≡ (connected, returns sdk_success cleared)
unfolding connect_server connect_to get_server fill c_str
send_http-lost_example =
    send_http-lost first version reason sized_fields (codes "h") 2 one_server connected
      (line_up in_parts) request [] (codes "i" ∷ []) [] sized_fields-IsAnswer (omega arith)
      (omega arith) ((omega arith, refl), tt) refl refl refl

-- Two packets of a header, of 700 and of 404 bytes.
abbrev long_field : Bytes
long_field = replicate 700 97

abbrev end_of_header : Bytes
end_of_header = replicate 400 97 ++ header_end

abbrev in_two : List Recv
in_two = received long_field ∷ received end_of_header ∷ []

send_http-overreads_example :
    send_http parser one_server (line_up in_two) request [] ≡ (connected, out_of_bounds)
unfolding connect_server connect_to get_server fill c_str
send_http-overreads_example =
    send_http-overreads parser one_server connected (line_up in_two) request [] (long_field ∷ [])
      end_of_header [] ((omega arith, refl), tt) (λ e. cc) (omega arith) refl (omega arith)
      (omega arith) refl refl refl
