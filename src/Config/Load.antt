-- ===== src/Config/Load.antt =====
-- loadConfig.cpp: the fields of an entry, `parse`, `Init` and `get_config`.
use test_frame.Prelude.{
  ℕ, zero, suc, ◌+◌, ◌==◌, if◌then◌else◌, not, Option, none, some, ℤ, pos, negsuc, to_bits, List,
  [], ◌∷◌, ◌++◌, Bytes, codes,
}
use test_frame.Config.{
  CmdInfo, new_cmd_info, Json, Files, Parsed, ok, skipped, out_of_bounds, ◌>>=◌, ◌>>◌, skip_if,
  read_ip_port,
}

-- `_config_list`; what the program reads of it is `find`.
pub record LoadTestConfig : Type 0 where
  pub config_list : List CmdInfo

abbrev pub new_config : LoadTestConfig
new_config = record { config_list = [] }

-- `_config_list.find(cmd)`
unfoldable pub find : ℕ → List CmdInfo → Option CmdInfo
find cmd [] = none
find cmd (info ∷ infos) = if info.cmd == cmd then some info else find cmd infos

-- `_config_list.insert`, which leaves an entry of the same key as it is.
unfoldable pub insert : CmdInfo → List CmdInfo → List CmdInfo
unfolding find
insert info infos = elim (find info.cmd infos) [ none ↦ infos ++ info ∷ [] | some old ↦ infos ]

-- `get_config`; `none` is -1, and leaves `cmd_info` as it is.
unfoldable pub get_config : ℕ → LoadTestConfig → Option CmdInfo
unfolding find
get_config cmd c = find cmd c.config_list

module _ (j : Json) where
  open j use {
    Object, tokener_parse, is_array, array_length, array_get_idx, object_get, is_string, is_int,
    get_string, get_int, get_int64,
  }

  -- The results of `get`: -1, or -2 in one case, is `none`, and leaves the value as it is.
  unfoldable pub get_text : Object → Bytes → Option Bytes
  get_text root name = elim (object_get root name) [
    | none ↦ none
    | some obj ↦ if is_string obj then some (get_string obj) else none
  ]

  unfoldable pub get_ulonglong : Object → Bytes → Option ℕ
  get_ulonglong root name = elim (object_get root name) [
    | none ↦ none
    | some obj ↦ if is_int obj then some (to_bits 64 (get_int64 obj)) else none
  ]

  unfoldable pub get_uint : Object → Bytes → Option ℕ
  get_uint root name = elim (object_get root name) [
    | none ↦ none
    | some obj ↦ if is_int obj then some (to_bits 32 (get_int obj)) else none
  ]

  -- The overload for an `int`, which no field uses.
  unfoldable pub get_signed : Object → Bytes → Option ℤ
  get_signed root name = elim (object_get root name) [
    | none ↦ none
    | some obj ↦ if is_int obj then some (get_int obj) else none
  ]

  -- `if (get(...) != 0) continue;`
  abbrev pub required {ℓ} : {A : Type ℓ} → Option A → Parsed A
  required none = skipped
  required (some a) = ok a

  abbrev pub optional {ℓ} : {A : Type ℓ} → A → Option A → A
  optional default none = default
  optional default (some a) = a

  -- The body of the loop of `parse`.
  unfoldable pub read_entry : Object → Parsed CmdInfo
  unfolding get_text get_uint get_ulonglong read_ip_port
  read_entry obj = do
    cmd ← required (get_uint obj (codes "cmd"))
    skip_if (cmd == 0)
    ip_port ← required (get_text obj (codes "ip_port"))
    tcp_info ← read_ip_port ip_port
    req ← required (get_text obj (codes "req"))
    let pre_assert = optional new_cmd_info.pre_assert (get_text obj (codes "pre_assert"))
    let assert = optional new_cmd_info.assert (get_text obj (codes "assert"))
    thread_num ← required (get_uint obj (codes "thread_num"))
    load_test_time ← required (get_uint obj (codes "load_test_time"))
    times_limit ← required (get_ulonglong obj (codes "times_limit"))
    frequence ← required (get_ulonglong obj (codes "frequence"))
    log_file ← required (get_text obj (codes "log_file"))
    ok (record new_cmd_info {
      cmd = cmd;
      tcp_info = tcp_info;
      req = req;
      pre_assert = pre_assert;
      assert = assert;
      thread_num = thread_num;
      load_test_time = load_test_time;
      times_limit = times_limit;
      frequence = frequence;
      log_file = log_file;
    })

  -- A null entry of the array is skipped.
  unfoldable pub read_element : Option Object → Parsed CmdInfo
  unfolding read_entry
  read_element none = skipped
  read_element (some obj) = read_entry obj

  -- The loop of `parse`; `none` is a read outside of a vector.
  unfoldable pub read_elements : List (Option Object) → List CmdInfo → Option (List CmdInfo)
  unfolding read_element insert
  read_elements [] infos = some infos
  read_elements (e ∷ es) infos =
      let rest = λ (kept : List CmdInfo). read_elements es kept in
      elim (read_element e) [
        | ok info ↦ rest (insert info infos)
        | skipped ↦ rest infos
        | out_of_bounds ↦ none
      ]

  -- The elements of the array from index `i` on, `n` of them.
  unfoldable pub elements : Object → ℕ → ℕ → List (Option Object)
  elements root i zero = []
  elements root i (suc n) = array_get_idx root i ∷ elements root (i + 1) n

  -- `parse`: the new state and the result, or `none` for a read outside of a vector.
  unfoldable pub parse : Bytes → LoadTestConfig → Option (LoadTestConfig × ℤ)
  unfolding elements read_elements
  parse content c = elim (tokener_parse content) [
    | none ↦ some (c, negsuc 0)
    | some root ↦
        if not (is_array root)
        then some (c, negsuc 1)
        else elim (read_elements (elements root 0 (array_length root)) c.config_list) [
          | none ↦ none
          | some infos ↦ some (record { config_list = infos }, pos 0)
        ]
  ]

  -- `Init`
  unfoldable pub init : Files → Bytes → LoadTestConfig → Option (LoadTestConfig × ℤ)
  unfolding parse
  init files filename c =
      if files.is_file_exist filename
      then parse (files.load_to_str filename) c
      else some (c, negsuc 0)
