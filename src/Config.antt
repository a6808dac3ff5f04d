-- ===== src/Config.antt =====
-- loadConfig.h and loadConfig.cpp: the configuration file, a JSON array with an object for each test.
-- The JSON library and the file system are arguments (`Json`, `Files`).
pub mod Split
pub mod Pieces
pub mod Servers
pub mod Load
pub mod Lookup
pub mod Ranges
pub mod Contents
pub mod Examples
mod Tests
use Split.{sepstr, strto_ushort}
use test_frame.Prelude.{
  ℕ, zero, suc, ◌+◌, ◌-◌, ◌%◌, ◌^◌, ◌==◌, ltb, if◌then◌else◌, Bool, true, false, ◌&&◌, not, Option,
  none, some, ℤ, pos, negsuc, to_bits, List, [], ◌∷◌, ◌++◌, is_empty, Bytes,
}

pub record TcpInfo : Type 0 where
  pub ip : Bytes
  pub port : ℕ

pub record CmdInfo : Type 0 where
  pub cmd : ℕ
  pub tcp_info : List TcpInfo
  pub pre_req : Bytes
  pub pre_assert : Bytes
  pub req : Bytes
  pub assert : Bytes
  pub thread_num : ℕ
  pub load_test_time : ℕ
  pub times_limit : ℕ
  pub frequence : ℕ
  pub log_file : Bytes

-- The text `code":0`.
abbrev pub code_zero : Bytes
code_zero = 99 ∷ 111 ∷ 100 ∷ 101 ∷ 34 ∷ 58 ∷ 48 ∷ []

-- The constructor. The fields that it leaves unset are 0 here; `parse` sets them before it uses them.
abbrev pub new_cmd_info : CmdInfo
new_cmd_info = record {
  cmd = 0;
  tcp_info = [];
  pre_req = [];
  pre_assert = code_zero;
  req = [];
  assert = code_zero;
  thread_num = 0;
  load_test_time = 0;
  times_limit = 0;
  frequence = 0;
  log_file = [];
}

-- What the program uses of json-c. A null value in an object is of no type.
pub record Json : Type 1 where
  pub Object : Type 0
  pub tokener_parse : Bytes → Option Object
  pub is_array : Object → Bool
  pub array_length : Object → ℕ
  pub array_get_idx : Object → ℕ → Option Object
  pub object_get : Object → Bytes → Option Object
  pub is_string : Object → Bool
  pub is_int : Object → Bool
  pub get_string : Object → Bytes
  pub get_int : Object → ℤ
  pub get_int64 : Object → ℤ

-- What the program uses of TC_File.
pub record Files : Type 0 where
  pub is_file_exist : Bytes → Bool
  pub load_to_str : Bytes → Bytes

-- How the handling of an entry ends: with a value, by `continue`, or with a read outside of a vector.
pub data Parsed {ℓ} (A : Type ℓ) : Type ℓ where
  ok : A → Parsed A
  skipped : Parsed A
  out_of_bounds : Parsed A

infixl 5 ◌>>=◌ ◌>>◌
abbrev pub ◌>>=◌ {ℓ κ} : {A : Type ℓ} {B : Type κ} → Parsed A → (A → Parsed B) → Parsed B
ok a >>= f = f a
skipped >>= f = skipped
out_of_bounds >>= f = out_of_bounds

abbrev pub ◌>>◌ {ℓ} : {B : Type ℓ} → Parsed (Unit {0}) → Parsed B → Parsed B
m >> k = m >>= λ _. k

-- A test that is followed by `continue`.
abbrev pub skip_if : Bool → Parsed (Unit {0})
skip_if true = skipped
skip_if false = ok tt

-- An address with both parts is pushed.
abbrev pub push_server : Bytes → Bytes → List TcpInfo → List TcpInfo
push_server ip port servers =
    if not (is_empty ip) && not (is_empty port)
    then record { ip = ip; port = strto_ushort port } ∷ servers
    else servers

-- `_tmp[0]` and `_tmp[1]`, the first two of the pieces between the colons.
unfoldable pub first_two : List Bytes → Parsed (Bytes × Bytes)
first_two (ip ∷ port ∷ rest) = ok (ip, port)
first_two _ = out_of_bounds

abbrev pub colon : Bytes
colon = 58 ∷ []

abbrev pub bar : Bytes
bar = 124 ∷ []

-- The loop over the pieces between the bars.
unfoldable pub read_servers : List Bytes → Parsed (List TcpInfo)
unfolding first_two sepstr
read_servers [] = ok []
read_servers (piece ∷ pieces) = do
  parts ← first_two (sepstr colon piece)
  servers ← read_servers pieces
  ok (push_server parts.0 parts.1 servers)

unfoldable pub read_ip_port : Bytes → Parsed (List TcpInfo)
unfolding read_servers sepstr
read_ip_port text = read_servers (sepstr bar text)
