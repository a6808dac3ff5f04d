-- ===== src/TestCase/Results.antt =====
-- testexample.cpp: what the result of a test says of the response, and which servers are asked.
use test_frame.Prelude.{
  ℕ, zero, suc, ◌≡◌, ◌↔◌, ◌⊎◌, inl, inr, refl, ap, sym, ◌∙◌, true, false, Bool-cases, ◌==◌, Option,
  none, some, ℤ, pos, negsuc, pos_part, neg_part, ◌&&◌, List, [], ◌∷◌, ◌++◌, map, is_empty,
  replicate, Bytes, contains, arith,
}
use mathlib.Core.List.{append_assoc, append-nil}
use test_frame.Client.{
  Client, Address, add_server, Network, Recv, failed, Outcome, returns, waiting, out_of_bounds,
  tcp_iot, connect_server, talk, finish, receive_line, sent_all, cleared, eagain, chunk_size,
  sdk_success, is_no_socket,
}
use test_frame.Config.{TcpInfo}
use test_frame.TestCase.{
  LogFile, log, put_text, TestCaseIot, ended, verdict, judge, execute, add_servers, init_case,
}

-- A text that begins with something else than a NUL is not found in a cleared chunk.
contains-cleared :
    (c : ℕ) (text : Bytes) (n : ℕ) → (c == 0) ≡ false → contains (c ∷ text) (replicate n 0) ≡ false
contains-cleared c text zero h = refl
contains-cleared c text (suc n) h = rw (h, contains-cleared c text n h)

not-in-cleared : (c : ℕ) (text : Bytes) → (c == 0) ≡ false → contains (c ∷ text) cleared ≡ false
unfolding cleared
not-in-cleared c text h = contains-cleared c text chunk_size h

connected :
    (c : Client) (net : Network) → is_no_socket c.sockfd ≡ false → connect_server c net ≡ (c, none)
unfolding connect_server
connected c net s = rw s

tcp_iot-timeout :
    (c : Client) (net : Network) (buf rsp : Bytes) (rs : List Recv)
    → is_no_socket c.sockfd ≡ false
    → sent_all (net.send c.sockfd buf) buf ≡ true
    → net.recvs ≡ failed eagain ∷ rs
    → tcp_iot c net buf rsp ≡ (c, returns sdk_success cleared)
unfolding tcp_iot talk finish receive_line
tcp_iot-timeout c net buf rsp rs s sent r = ap (talk net buf rsp) (connected c net s) ∙ rw (sent, r)

-- The server that does not answer: where the client has a socket, the request goes out and the first
-- `recv` times out, `tcp_iot` reports success, and the test fails with -2 all the same, because the
-- text that is looked for, which begins with a byte other than NUL, is not in the cleared response.
-- (Here nothing is logged.)
pub execute-timeout :
    (tc : TestCaseIot) (net : Network) (stamp : Bytes) (c : Client) (l : LogFile) (first : ℕ)
    (text : Bytes) (rs : List Recv)
    → is_no_socket c.sockfd ≡ false
    → sent_all (net.send c.sockfd tc.req) tc.req ≡ true
    → net.recvs ≡ failed eagain ∷ rs
    → tc.assert ≡ first ∷ text
    → (first == 0) ≡ false
    → tc.log_file ≡ []
    → (tcp_iot c net tc.req [] ≡ (c, returns sdk_success cleared))
      × (execute tc net stamp c l ≡ (c, ended (negsuc 1) l))
unfolding execute judge
execute-timeout tc net stamp c l first text rs s sent r a z no_log = (
  tcp_iot-timeout c net tc.req [] rs s sent r,
  rw (tcp_iot-timeout c net tc.req [] rs s sent r, execute, no_log, a, not-in-cleared first text z),
)

-- What `judge` needs to come to 0.
abbrev pub Passed : TestCaseIot → LogFile → Outcome → Type 0
Passed tc l o =
    (rsp : Bytes) × (o ≡ returns sdk_success rsp)
    × (contains tc.assert rsp ≡ true)
    × ((tc.log_file ≡ []) ⊎ ((file : ℕ) × (l.handle ≡ some file)))

code_zero : (code : ℤ) → (pos_part code == 0 && neg_part code == 0) ≡ true → code ≡ pos 0
code_zero (pos n) h = ground arith
code_zero (negsuc n) h = absurd (ground arith)

no_log_file : (name : Bytes) → is_empty name ≡ true → name ≡ []
no_log_file [] h = refl
no_log_file (c ∷ name) h = absurd (cc)

verdict-passes : (assert rsp : Bytes) → verdict assert rsp ≡ pos 0 → contains assert rsp ≡ true
verdict-passes assert rsp h = elim (Bool-cases (contains assert rsp)) [
  | inl e ↦ e
  | inr e ↦ absurd (ground (arith, e))
]

judge-Passed :
    (tc : TestCaseIot) (stamp : Bytes) (l l' : LogFile) (o : Outcome)
    → judge tc tc.assert stamp l o ≡ ended (pos 0) l'
    → Passed tc l o
unfolding judge log
judge-Passed tc stamp l l' waiting h = absurd (cc)
judge-Passed tc stamp l l' out_of_bounds h = absurd (cc)
judge-Passed tc stamp l l' (returns code rsp) h = (
  rsp,
  ground (arith, code_zero code),
  ground (arith, verdict-passes tc.assert rsp),
  ground (arith, no_log_file tc.log_file),
)

pub log-opened :
    (stamp text : Bytes) (l : LogFile) (file : ℕ)
    → l.handle ≡ some file
    → log stamp text l ≡ some (record l { written = l.written ++ put_text (stamp ++ text) })
unfolding log
log-opened stamp text l file opened =
    ap
      (λ (h : Option ℕ). elim h [
        | none ↦ none
        | some f ↦ some (record l { written = l.written ++ put_text (stamp ++ text) })
      ])
      opened

Passed-judge :
    (tc : TestCaseIot) (stamp : Bytes) (l : LogFile) (o : Outcome)
    → Passed tc l o
    → (l' : LogFile) × (judge tc tc.assert stamp l o ≡ ended (pos 0) l')
unfolding judge
Passed-judge tc stamp l o (rsp, e, hit, inl no_log) = (l, rw (e, judge, no_log, hit))
Passed-judge tc stamp l o (rsp, e, hit, inr (file, opened)) =
    elim (Bool-cases (is_empty tc.log_file)) [
      | inl none_named ↦ (l, rw (e, judge, none_named, hit))
      | inr named ↦ (
        record l { written = l.written ++ put_text (stamp ++ rsp) },
        rw (e, judge, named, log-opened stamp rsp l file opened, hit),
      )
    ]

-- The results that pass: a test ends with 0 exactly where `tcp_iot` reports success with a response
-- that holds the text looked for, and no response has to be written to a log that is not open.
pub execute-passes :
    (tc : TestCaseIot) (net : Network) (stamp : Bytes) (c : Client) (l : LogFile)
    → ((l' : LogFile) × ((execute tc net stamp c l).1 ≡ ended (pos 0) l'))
      ↔ Passed tc l (tcp_iot c net tc.req []).1
unfolding execute
execute-passes tc net stamp c l = (
  λ (l', e). judge-Passed tc stamp l l' (tcp_iot c net tc.req []).1 e,
  Passed-judge tc stamp l (tcp_iot c net tc.req []).1,
)

abbrev pub given : TcpInfo → Address
given t = record { ip = t.ip; port = t.port }

add_servers-addrs :
    (ts : List TcpInfo) (c : Client)
    → ((add_servers ts c).addrs ≡ c.addrs ++ map given ts) × ((add_servers ts c).sockfd ≡ c.sockfd)
unfolding add_servers
add_servers-addrs [] c = (sym (append-nil c.addrs), refl)
add_servers-addrs (t ∷ ts) c =
    let next = add_server t.ip t.port c in
    let rest = add_servers-addrs ts next in
    (rest.0 ∙ append_assoc c.addrs (given t ∷ []) (map given ts), rest.1)

-- `Init` adds the servers of the test case to those of the client, in order, and leaves the socket.
pub init_case-addrs :
    (tc : TestCaseIot) (c : Client)
    → ((init_case tc c).addrs ≡ c.addrs ++ map given tc.ip_port)
      × ((init_case tc c).sockfd ≡ c.sockfd)
unfolding init_case
init_case-addrs tc c = add_servers-addrs tc.ip_port c
