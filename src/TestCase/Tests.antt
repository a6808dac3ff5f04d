-- ===== src/TestCase/Tests.antt =====
-- Runs of the test case of testexample.cpp.
use test_frame.Prelude.{◌≡◌, refl, ◌↔◌, some, pos, List, [], ◌∷◌, ◌++◌, length, Bytes, codes}
use test_frame.Client.{
  Client, new_client, Recv, received, Network, tcp_iot, receive_line, fill, c_string,
}
use test_frame.Config.{TcpInfo}
use test_frame.TestCase.{
  put_text, LogFile, new_log_file, init_log, log, TestCaseIot, Tested, ended, execute, judge,
}
use test_frame.TestCase.Results.{execute-passes, Passed}

abbrev local : TcpInfo
local = record { ip = codes "127.0.0.1"; port = 3000 }

abbrev unlogged : TestCaseIot
unlogged = record {
  ip_port = local ∷ [];
  pre_req = [];
  req = codes "{}";
  log_file = [];
  pre_assert = codes "ok";
  assert = codes "ok";
}

abbrev logged : TestCaseIot
logged = record unlogged { log_file = codes "a.log" }

abbrev line_up : List Recv → Network
line_up rs = record {
  socket = pos 7;
  rand = 5;
  connect = λ fd a. pos 0;
  send = λ fd buf. pos (length buf);
  recvs = rs;
}

abbrev connected : Client
connected = record new_client { sockfd = pos 7 }

abbrev stamp : Bytes
stamp = codes "[now][1]"

-- "ok" and a newline.
abbrev answer : Bytes
answer = 111 ∷ 107 ∷ 10 ∷ []

abbrev opened : LogFile
opened = (init_log (some 3) new_log_file).0

abbrev answered : Client × Tested
answered = execute logged (line_up (received answer ∷ [])) stamp connected opened

execute-passes_example :
    ((l' : LogFile) × (answered.1 ≡ ended (pos 0) l'))
    ↔ Passed logged opened (tcp_iot connected (line_up (received answer ∷ [])) (codes "{}") []).1
execute-passes_example =
    execute-passes logged (line_up (received answer ∷ [])) stamp connected opened

answered_passes : answered.1 ≡ ended (pos 0) (record { handle = some 3; written = stamp ++ answer })
unfolding execute judge log put_text tcp_iot receive_line fill c_string init_log
answered_passes = refl
