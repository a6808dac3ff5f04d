-- ===== src/Config/Contents.antt =====
-- loadConfig.cpp: where the values of an entry come from.
use test_frame.Prelude.{
  ℕ, ◌≤◌, ◌<◌, ◌≡◌, ◌≢◌, ◌⊎◌, Bool, true, false, some, to_bits, Bytes, All, is_empty, codes,
}
use test_frame.Config.{TcpInfo, CmdInfo, code_zero, Json, ok, read_ip_port}

abbrev pub HasAddress : TcpInfo → Type 0
HasAddress t = is_empty t.ip ≡ false

module _ (j : Json) where
  open j use {
    Object, tokener_parse, is_array, array_length, array_get_idx, object_get, is_string, is_int,
    get_string, get_int, get_int64,
  }

  -- The object has a field of that name, whose value is of the type, and reads as `a`.
  pub record HasField {A : Type 0} (typed : Object → Bool) (read : Object → A) (obj : Object)
      (name : Bytes) (a : A) : Type 0 where
    pub holder : Object
    pub at_name : object_get obj name ≡ some holder
    pub has_type : typed holder ≡ true
    pub value_is : a ≡ read holder

  abbrev pub HasText : Object → Bytes → Bytes → Type 0
  HasText obj name text = HasField is_string get_string obj name text

  -- A number kept in 32 bits, and one kept in 64.
  abbrev pub HasUint : Object → Bytes → ℕ → Type 0
  HasUint obj name n = HasField is_int (λ o. to_bits 32 (get_int o)) obj name n

  abbrev pub HasUlonglong : Object → Bytes → ℕ → Type 0
  HasUlonglong obj name n = HasField is_int (λ o. to_bits 64 (get_int64 o)) obj name n

  -- An optional text, which is `"code":0` where it is not given.
  abbrev pub HasOptional : Object → Bytes → Bytes → Type 0
  HasOptional obj name text =
      HasText obj name text ⊎ ((text ≡ code_zero) × ¬ ((given : Bytes) × HasText obj name given))

  -- What the fields of an object make of an entry: a command that is not 0, the texts and the numbers
  -- under their names, and servers that each have an address, read from "ip_port".
  pub record IsReadFrom (obj : Object) (info : CmdInfo) : Type 0 where
    pub cmd_is : HasUint obj (codes "cmd") info.cmd
    pub some_cmd : info.cmd ≢ 0
    pub servers :
        (text : Bytes) × HasText obj (codes "ip_port") text × (read_ip_port text ≡ ok info.tcp_info)
    pub addressed : All HasAddress info.tcp_info
    pub req_is : HasText obj (codes "req") info.req
    pub pre_assert_is : HasOptional obj (codes "pre_assert") info.pre_assert
    pub assert_is : HasOptional obj (codes "assert") info.assert
    pub thread_num_is : HasUint obj (codes "thread_num") info.thread_num
    pub load_test_time_is : HasUint obj (codes "load_test_time") info.load_test_time
    pub times_limit_is : HasUlonglong obj (codes "times_limit") info.times_limit
    pub frequence_is : HasUlonglong obj (codes "frequence") info.frequence
    pub log_file_is : HasText obj (codes "log_file") info.log_file

  -- The element of the array from which an entry was read.
  abbrev pub IsReadAt : Object → ℕ → ℕ → CmdInfo → Type 0
  IsReadAt root first behind info =
      (k : ℕ) × (obj : Object) × (first ≤ k)
      × (k < behind)
      × (array_get_idx root k ≡ some obj)
      × IsReadFrom obj info
