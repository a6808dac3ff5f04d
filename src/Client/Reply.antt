-- ===== src/Client/Reply.antt =====
-- Client.cpp: the servers of a client, and how `tcp_iot` ends.
use test_frame.Prelude.{
  ℕ, zero, suc, ◌%◌, ◌<◌, ◌≡◌, ◌⊎◌, inl, inr, refl, true, false, Bool-cases, Option, none, some, ℤ,
  is_neg, is_neg_parts, List, [], ◌∷◌, length, get_elem?, Bytes, arith,
}
use native.Mathlib.Nat.{mod-lt}
use test_frame.Client.{
  Address, Client, Network, Outcome, returns, waiting, out_of_bounds, receive_line, tcp_iot,
  connect_server, connect_to, talk, get_server, finish, sdk_success, sdk_err_address,
  sdk_err_socket, no_socket, is_no_socket, sent_all,
}
use test_frame.Client.Receive.{IsChunk}

-- One of the addresses that the client was given.
abbrev pub IsServer : Address → List Address → Type 0
IsServer a [] = ⊥
IsServer a (x ∷ xs) = (a ≡ x) ⊎ IsServer a xs

get_elem?-total :
    (xs : List Address) (i : ℕ)
    → i < length xs
    → (a : Address) × (get_elem? xs i ≡ some a) × IsServer a xs
get_elem?-total [] i h = absurd (omega arith)
get_elem?-total (x ∷ xs) zero h = (x, refl, inl refl)
get_elem?-total (x ∷ xs) (suc i) h =
    let (a, e, m) = get_elem?-total xs i (omega arith) in (a, e, inr m)

-- A client with a server chooses, whatever `rand` returns, one of the addresses it was given; only a
-- client with none gets SDK_ERR_ADDRESS.
pub get_server-cases :
    (c : Client) (rand : ℕ)
    → ((c.addrs ≡ []) × (get_server c rand ≡ none))
      ⊎ ((a : Address) × (get_server c rand ≡ some a) × IsServer a c.addrs)
unfolding get_server
get_server-cases c rand = choose c.addrs rand
  where
    choose :
        (xs : List Address) (r : ℕ)
        → ((xs ≡ []) × (get_elem? xs (r % length xs) ≡ none))
          ⊎ ((a : Address) × (get_elem? xs (r % length xs) ≡ some a) × IsServer a xs)
    choose [] r = inl (refl, refl)
    choose (x ∷ xs) r = inr (
        get_elem?-total (x ∷ xs) (r % length (x ∷ xs))
          (mod-lt r {m = length (x ∷ xs)} (omega arith)))

-- A descriptor, or -1.
abbrev pub IsSocket : ℤ → Type 0
IsSocket z = (z ≡ no_socket) ⊎ (is_neg z ≡ false)

-- How a call on client `c`, with `rsp` in the caller's string, may end.
abbrev pub Ends : Client → Bytes → Client → Outcome → Type 0
Ends c rsp c' (returns code r) =
    ((code ≡ sdk_success) × IsChunk r × (is_neg c'.sockfd ≡ false))
    ⊎ ((code ≡ sdk_err_socket) × (r ≡ rsp) × (c'.sockfd ≡ no_socket))
    ⊎ ((code ≡ sdk_err_address) × (r ≡ rsp) × (c.addrs ≡ []) × (is_neg c'.sockfd ≡ false))
Ends c rsp c' waiting = is_neg c'.sockfd ≡ false
Ends c rsp c' out_of_bounds = is_neg c'.sockfd ≡ false

-- The result of the connecting part.
abbrev pub Connects : Client → Client × Option ℤ → Type 0
Connects c (c', none) = is_neg c'.sockfd ≡ false
Connects c (c', some code) =
    ((code ≡ sdk_err_socket) × (c'.sockfd ≡ no_socket))
    ⊎ ((code ≡ sdk_err_address) × (c.addrs ≡ []) × (is_neg c'.sockfd ≡ false))

connect_to-Connects :
    (c : Client) (net : Network) (o : Option Address)
    → is_neg net.socket ≡ false
    → (o ≡ none → c.addrs ≡ [])
    → Connects c (connect_to c net o)
unfolding connect_to
connect_to-Connects c net none s h = inr (refl, h refl, s)
connect_to-Connects c net (some a) s h = elim (Bool-cases (is_neg (net.connect net.socket a))) [
  | inl e ↦ rw e (inl (refl, refl))
  | inr e ↦ rw e s
]

none-empty : (c : Client) (rand : ℕ) → get_server c rand ≡ none → c.addrs ≡ []
none-empty c rand e = ground (arith, get_server-cases c rand)

IsSocket-cases :
    (z : ℤ)
    → IsSocket z
    → ((z ≡ no_socket) × (is_no_socket z ≡ true)) ⊎ ((is_neg z ≡ false) × (is_no_socket z ≡ false))
IsSocket-cases z (inl e) = inl (e, rw e)
IsSocket-cases z (inr e) = inr (e, ground (arith, is_neg_parts z))

pub connect_server-Connects :
    (c : Client) (net : Network)
    → IsSocket c.sockfd
    → IsSocket net.socket
    → Connects c (connect_server c net)
unfolding connect_server
connect_server-Connects c net s n = elim (IsSocket-cases c.sockfd s) [
  | inr (open_already, e) ↦ rw e open_already
  | inl (_, e) ↦ elim n [
    | inl failed ↦ rw e (rw failed (inl (refl, refl)))
    | inr opened ↦
        rw (e, opened)
          (connect_to-Connects c net (get_server c net.rand) opened (none-empty c net.rand))
  ]
]

-- A client without a server that makes a first call keeps a socket that was never connected: it gets
-- SDK_ERR_ADDRESS once. If the system takes what a second call sends on that socket, the second call
-- ends as its loop does, and never with the address error.
pub unconnected-sends :
    (c : Client) (net later : Network) (send_buf rsp : Bytes)
    → c.sockfd ≡ no_socket
    → c.addrs ≡ []
    → is_neg net.socket ≡ false
    → sent_all (later.send net.socket send_buf) send_buf ≡ true
    → let first = tcp_iot c net send_buf rsp in
      (first.1 ≡ returns sdk_err_address rsp)
      × ((tcp_iot first.0 later send_buf rsp).1 ≡ finish (receive_line later.recvs))
unfolding tcp_iot get_server connect_server connect_to talk
unconnected-sends c net later send_buf rsp none_yet empty opened sent =
    rw (none_yet, opened, empty) (refl, ground (arith, IsSocket-cases net.socket (inr opened)))
