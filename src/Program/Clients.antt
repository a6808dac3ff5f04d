-- ===== src/Program/Clients.antt =====
-- The servers that the clients of the threads ask.
use test_frame.Prelude.{
  ℕ, ◌≡◌, ◌⊎◌, inl, inr, refl, sym, ap, ◌∙◌, Bool, true, false, Bool-cases, ◌==◌, Option, none,
  some, ℤ, is_neg, List, [], map, is_empty, Bytes, arith,
}
use test_frame.Frame.{TestFrame}
use test_frame.Frame.Worker.{Shared, Pc, unborn, born, Label, Move}
use test_frame.Frame.System.{System, Drive, create, start, refill}
use test_frame.Client.{
  Address, Client, new_client, Network, get_server, connect_to, connect_server, sent_all,
  is_no_socket, talk, tcp_iot,
}
use test_frame.Client.Reply.{IsServer, get_server-cases}
use test_frame.TestCase.{LogFile, TestCaseIot, Tested, execute, pre_execute}
use test_frame.TestCase.Results.{given, init_case-addrs}
use test_frame.Program.{
  Process, Act, calls_case, Turn, main, work, init, prepare, test, Ran, called, and_then,
}

connect_to-addrs :
    (c : Client) (net : Network) (o : Option Address) → (connect_to c net o).0.addrs ≡ c.addrs
unfolding connect_to
connect_to-addrs c net none = refl
connect_to-addrs c net (some a) = elim (Bool-cases (is_neg (net.connect net.socket a))) [
  | inl e ↦ rw e refl
  | inr e ↦ rw e refl
]

connect_server-addrs : (c : Client) (net : Network) → (connect_server c net).0.addrs ≡ c.addrs
unfolding connect_server
connect_server-addrs c net = elim (Bool-cases (is_no_socket c.sockfd)) [
  | inr e ↦ rw e refl
  | inl e ↦ elim (Bool-cases (is_neg net.socket)) [
    | inl n ↦ rw (e, n) refl
    | inr n ↦ rw (e, n) (connect_to-addrs c net (get_server c net.rand))
  ]
]

talk-addrs :
    (net : Network) (buf rsp : Bytes) (r : Client × Option ℤ)
    → (talk net buf rsp r).0.addrs ≡ r.0.addrs
unfolding talk
talk-addrs net buf rsp (c, some code) = refl
talk-addrs net buf rsp (c, none) = elim (Bool-cases (sent_all (net.send c.sockfd buf) buf)) [
  | inl e ↦ rw e refl
  | inr e ↦ rw e refl
]

tcp_iot-addrs :
    (c : Client) (net : Network) (buf rsp : Bytes) → (tcp_iot c net buf rsp).0.addrs ≡ c.addrs
unfolding tcp_iot
tcp_iot-addrs c net buf rsp =
    talk-addrs net buf rsp (connect_server c net) ∙ connect_server-addrs c net

execute-addrs :
    (tc : TestCaseIot) (net : Network) (stamp : Bytes) (c : Client) (l : LogFile)
    → (execute tc net stamp c l).0.addrs ≡ c.addrs
unfolding execute
execute-addrs tc net stamp c l = tcp_iot-addrs c net tc.req []

pre_execute-addrs :
    (tc : TestCaseIot) (net : Network) (stamp : Bytes) (c : Client) (l : LogFile)
    → (pre_execute tc net stamp c l).0.addrs ≡ c.addrs
unfolding pre_execute
pre_execute-addrs tc net stamp c l = elim (Bool-cases (is_empty tc.pre_req)) [
  | inl e ↦ rw e refl
  | inr e ↦ rw e (tcp_iot-addrs c net tc.pre_req [])
]

-- Whether the thread is past `Init`.
abbrev pub is_set_up : Pc → Bool
is_set_up unborn = false
is_set_up born = false
is_set_up _ = true

abbrev IsServed : TestCaseIot → Process → Type 0
IsServed tc p = (i : ℕ) → is_set_up (p.pc i) ≡ true → (p.client i).addrs ≡ map given tc.ip_port

Drive-is_set_up :
    {n : ℕ} {s t : System} {l : Label} (i : ℕ)
    → Drive n s l t
    → is_set_up (t.pc i) ≡ true
    → is_set_up (s.pc i) ≡ true
Drive-is_set_up i (create k e lt) h = ground arith
Drive-is_set_up i (start now e) h = ground arith
Drive-is_set_up i (refill begin now e) h = ground arith
Drive-is_set_up i d h = h

Move-is_set_up :
    {m m' : Shared} {q q' : Pc} {l : Label}
    → Move m q l m' q'
    → calls_case q ≡ false
    → is_set_up q ≡ true
Move-is_set_up Move.init free = absurd (cc)
Move-is_set_up mv free = refl

Turn-IsServed :
    {tc : TestCaseIot} {n : ℕ} {p q : Process} {a : Act}
    → Turn tc n p a q
    → IsServed tc p
    → IsServed tc q
Turn-IsServed (main d) served j h = served j (Drive-is_set_up j d h)
Turn-IsServed {p = p} (work i {q = q} lt on free mv) served j h = elim (Bool-cases (i == j)) [
  | inl e ↦ let same : i ≡ j = ground arith in served j (rw same at (Move-is_set_up mv free))
  | inr e ↦ served j (rw e at h)
]
Turn-IsServed {tc} {p = p} (init i lt on e) served j h = elim (Bool-cases (i == j)) [
  | inl same ↦ rw same (init_case-addrs tc new_client).0
  | inr other ↦ rw other (served j (rw other at h))
]
Turn-IsServed {tc} {p = p} (prepare i net stamp {c = c} {l = l} lt on e r) served j h =
    let same_servers : c.addrs ≡ (p.client i).addrs =
      sym (ap (λ (x : Client × Tested). x.0.addrs) r)
      ∙ pre_execute-addrs tc net stamp (p.client i) p.log_file in
    let before : is_set_up (p.pc i) ≡ true = rw e refl in
    elim (Bool-cases (i == j)) [
      | inl same ↦ rw same (same_servers ∙ served i before)
      | inr other ↦ rw other (served j (rw other at h))
    ]
Turn-IsServed {tc} {p = p} (test i net stamp begin end {c = c} {l = l} lt on e r) served j h =
    let same_servers : c.addrs ≡ (p.client i).addrs =
      sym (ap (λ (x : Client × Tested). x.0.addrs) r)
      ∙ execute-addrs tc net stamp (p.client i) p.log_file in
    let before : is_set_up (p.pc i) ≡ true = rw e refl in
    elim (Bool-cases (i == j)) [
      | inl same ↦ rw same (same_servers ∙ served i before)
      | inr other ↦ rw other (served j (rw other at h))
    ]

Ran-IsServed :
    {tc : TestCaseIot} {f : TestFrame} {l : LogFile} {acts : List Act} {p : Process}
    → Ran tc f l acts p
    → IsServed tc p
Ran-IsServed called = λ i h. absurd (cc)
Ran-IsServed (and_then r t) = Turn-IsServed t (Ran-IsServed r)

-- Every thread has the configured servers to itself: in all runs, whatever the network answers, a
-- thread that is past `Init` connects to one of the configured servers, whatever `rand` returns, and
-- finds none only where none is configured.
pub get_server-given :
    {tc : TestCaseIot} {f : TestFrame} {l : LogFile} {acts : List Act} {p : Process} (i rand : ℕ)
    → Ran tc f l acts p
    → is_set_up (p.pc i) ≡ true
    → ((map given tc.ip_port ≡ []) × (get_server (p.client i) rand ≡ none))
      ⊎ ((a : Address) × (get_server (p.client i) rand ≡ some a)
          × IsServer a (map given tc.ip_port))
get_server-given {tc} {p = p} i rand r h =
    let same = Ran-IsServed r i h in
    elim (get_server-cases (p.client i) rand) [
      | inl (nobody, g) ↦ inl (sym same ∙ nobody, g)
      | inr (a, g, m) ↦ inr (a, g, rw same at m)
    ]
