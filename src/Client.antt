-- ===== src/Client.antt =====
-- Client.h and Client.cpp: the client of one thread, its server addresses and its socket. The answers
-- of the socket calls and of `rand` are arguments (`Network`); a call of `recv` is an event.
pub mod Receive
pub mod Reply
pub mod Bounds
pub mod Http
pub mod Answers
pub mod Answered
pub mod Overread
mod Tests
mod Runs
use test_frame.Prelude.{
  ℕ, ◌+◌, ◌-◌, ◌*◌, ◌/◌, ◌%◌, ◌^◌, ◌==◌, ltb, leb, if◌then◌else◌, Bool, true, false, ◌&&◌, ◌||◌,
  Option, none, some, ℤ, pos, negsuc, pos_part, neg_part, is_neg, int_of_bits, to_bits, List, [],
  ◌∷◌, ◌++◌, length, get_elem?, take, replicate, is_empty, Bytes, contains, eqb_bytes,
}

abbrev pub sdk_success : ℤ
sdk_success = pos 0

-- SDK_ERR_API - 7 and SDK_ERR_API - 8, that is -1007 and -1008.
abbrev pub sdk_err_address : ℤ
sdk_err_address = negsuc 1006

abbrev pub sdk_err_socket : ℤ
sdk_err_socket = negsuc 1007

abbrev pub no_socket : ℤ
no_socket = negsuc 0

pub record Address : Type 0 where
  pub ip : Bytes
  pub port : ℕ

pub record Client : Type 0 where
  pub addrs : List Address
  pub sockfd : ℤ

-- The constructor.
abbrev pub new_client : Client
new_client = record { addrs = []; sockfd = no_socket }

-- `AddServer`, which returns SDK_SUCCESS.
abbrev pub add_server : Bytes → ℕ → Client → Client
add_server ip port c = record c { addrs = c.addrs ++ record { ip = ip; port = port } ∷ [] }

-- `GetServer`, where `rand` is what `Rand()` returns: the address, or `none` for SDK_ERR_ADDRESS.
unfoldable pub get_server : Client → ℕ → Option Address
get_server c rand = get_elem? c.addrs (rand % length c.addrs)

-- What one `recv` comes back with: bytes, of which there are none at the end of the stream, or -1
-- and an `errno`.
pub data Recv : Type 0 where
  received : Bytes → Recv
  failed : ℕ → Recv

-- The answers of the system during one call of the client.
pub record Network : Type 0 where
  pub socket : ℤ
  pub rand : ℕ
  pub connect : ℤ → Address → ℤ
  pub send : ℤ → Bytes → ℤ
  pub recvs : List Recv

-- How a call of the client ends: it returns a code, with what `rsp` holds; it is still in its loop
-- when the events are used up; or it reads outside of an array.
pub data Outcome : Type 0 where
  returns : ℤ → Bytes → Outcome
  waiting : Outcome
  out_of_bounds : Outcome

abbrev pub is_no_socket : ℤ → Bool
is_no_socket z = neg_part z == 1

-- The connection of a new socket to the server that `GetServer` gives.
unfoldable pub connect_to : Client → Network → Option Address → Client × Option ℤ
connect_to c net none = (record c { sockfd = net.socket }, some sdk_err_address)
connect_to c net (some address) =
    if is_neg (net.connect net.socket address)
    then (record c { sockfd = no_socket }, some sdk_err_socket)
    else (record c { sockfd = net.socket }, none)

-- The first part of `tcp_iot` and of `SendHttp`: a connection, if there is no socket. `some` is an
-- error to return at once.
unfoldable pub connect_server : Client → Network → Client × Option ℤ
unfolding get_server connect_to
connect_server c net =
    if is_no_socket c.sockfd
    then (if is_neg net.socket
        then (record c { sockfd = net.socket }, some sdk_err_socket)
        else connect_to c net (get_server c net.rand))
    else (c, none)

-- `size != buf.length()`, where `size` is what `send` returned, as an `unsigned int`.
abbrev pub sent_all : ℤ → Bytes → Bool
sent_all size buf = to_bits 32 size == length buf

abbrev pub chunk_size : ℕ
chunk_size = 1024

-- `chunk`, cleared and filled by one `recv`.
unfoldable pub fill : Bytes → Bytes
fill bs = take chunk_size bs ++ replicate (chunk_size - length bs) 0

unfoldable pub cleared : Bytes
cleared = replicate chunk_size 0

-- The C string at the start of an array; `none`, if the array holds no NUL.
unfoldable pub c_string : Bytes → Option Bytes
c_string [] = none
c_string (b ∷ bs) =
    let rest = c_string bs in
    if b == 0 then some [] else elim rest [ none ↦ none | some s ↦ some (b ∷ s) ]

abbrev pub eintr : ℕ
eintr = 4

abbrev pub enoent : ℕ
enoent = 2

-- EWOULDBLOCK is the same code.
abbrev pub eagain : ℕ
eagain = 11

abbrev pub newline : Bytes
newline = 10 ∷ []

-- The loop of `tcp_iot`, over what `recv` comes back with: the contents of `chunk` at the `break`.
pub data Received : Type 0 where
  broke : Bytes → Received
  blocked : Received
  overran : Received

-- The errors that end the loops; EINTR and every other one lets them go on.
abbrev pub ends_loop : ℕ → Bool
ends_loop errno = errno == eagain || errno == enoent

unfoldable pub receive_line : List Recv → Received
receive_line [] = blocked
receive_line (failed errno ∷ rs) =
    let rest = receive_line rs in if ends_loop errno then broke cleared else rest
receive_line (received bs ∷ rs) =
    let rest = receive_line rs in
    if is_empty bs then rest else elim (c_string (fill bs)) [
      | none ↦ overran
      | some s ↦ if contains newline s then broke (fill bs) else rest
    ]

unfoldable pub finish : Received → Outcome
finish (broke chunk) = returns sdk_success chunk
finish blocked = waiting
finish overran = out_of_bounds

-- The rest of `tcp_iot`, after the connecting part.
unfoldable pub talk : Network → Bytes → Bytes → Client × Option ℤ → Client × Outcome
unfolding finish
talk net send_buf rsp (c, some code) = (c, returns code rsp)
talk net send_buf rsp (c, none) =
    if sent_all (net.send c.sockfd send_buf) send_buf
    then (c, finish (receive_line net.recvs))
    else (record c { sockfd = no_socket }, returns sdk_err_socket rsp)

-- `tcp_iot`, where `rsp` is what the caller's string holds.
unfoldable pub tcp_iot : Client → Network → Bytes → Bytes → Client × Outcome
unfolding connect_server talk
tcp_iot c net send_buf rsp = talk net send_buf rsp (connect_server c net)
