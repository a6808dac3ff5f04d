-- ===== src/Config/Examples.antt =====
-- A configuration file of three entries, as `parse` reads it.
use test_frame.Prelude.{
  ℕ, zero, suc, ◌≡◌, refl, Bool, true, false, ◌&&◌, ◌==◌, if◌then◌else◌, Option, none, some, ℤ, pos,
  List, [], ◌∷◌, length, Bytes, codes,
}
use test_frame.Config.{CmdInfo, new_cmd_info, Json, read_ip_port, read_servers, first_two}
use test_frame.Config.Split.{
  sepstr, sepstr_loop, cut, strto_ushort, strtoul, signed_value, digits_value,
}
use test_frame.Config.Load.{
  LoadTestConfig, new_config, find, insert, parse, elements, read_elements, read_element,
  read_entry, get_text, get_uint, get_ulonglong,
}

-- A small JSON document.
pub data Value : Type 0 where
  text : Bytes → Value
  number : ℕ → Value

pub data Doc : Type 0 where
  entries : List (List (Bytes × Value)) → Doc
  entry : List (Bytes × Value) → Doc
  value : Value → Doc

same_name : Bytes → Bytes → Bool
same_name [] [] = true
same_name [] (c ∷ b) = false
same_name (c ∷ a) [] = false
same_name (c ∷ a) (d ∷ b) = c == d && same_name a b

field : List (Bytes × Value) → Bytes → Option Doc
unfolding same_name
field [] name = none
field (f ∷ fs) name =
    let rest = field fs name in if same_name f.0 name then some (value f.1) else rest

abbrev pub given : Bytes → Value → Bytes × Value
given name d = (name, d)

abbrev pub entry_of : ℕ → ℕ → List (Bytes × Value)
entry_of cmd threads =
    given (codes "cmd") (number cmd)
    ∷ given (codes "ip_port") (text (codes "db:80"))
    ∷ given (codes "pre_req") (text (codes "{}"))
    ∷ given (codes "req") (text (codes "{}"))
    ∷ given (codes "thread_num") (number threads)
    ∷ given (codes "load_test_time") (number 60)
    ∷ given (codes "times_limit") (number 100)
    ∷ given (codes "frequence") (number 10)
    ∷ given (codes "log_file") (text [])
    ∷ []

-- Two entries of the same command, and one without a command.
abbrev pub document : Doc
document = entries (entry_of 7 2 ∷ [] ∷ entry_of 7 5 ∷ [])

nth : List (List (Bytes × Value)) → ℕ → Option Doc
nth [] i = none
nth (e ∷ es) zero = some (entry e)
nth (e ∷ es) (suc i) = nth es i

pub doc_get : Doc → Bytes → Option Doc
unfolding field
doc_get (entry fs) name = field fs name
doc_get _ name = none

pub doc_nth : Doc → ℕ → Option Doc
unfolding nth
doc_nth (entries es) i = nth es i
doc_nth _ i = none

abbrev pub doc_length : Doc → ℕ
doc_length (entries es) = length es
doc_length _ = 0

abbrev pub doc_array : Doc → Bool
doc_array (entries es) = true
doc_array _ = false

abbrev pub doc_string : Doc → Bool
doc_string (value (text t)) = true
doc_string _ = false

abbrev pub doc_number : Doc → Bool
doc_number (value (number n)) = true
doc_number _ = false

abbrev pub doc_text : Doc → Bytes
doc_text (value (text t)) = t
doc_text _ = []

abbrev pub doc_int : Doc → ℤ
doc_int (value (number n)) = pos n
doc_int _ = pos 0

abbrev pub json : Json
json = record {
  Object = Doc;
  tokener_parse = λ content. some document;
  is_array = doc_array;
  array_length = doc_length;
  array_get_idx = doc_nth;
  object_get = doc_get;
  is_string = doc_string;
  is_int = doc_number;
  get_string = doc_text;
  get_int = doc_int;
  get_int64 = doc_int;
}

-- The configuration after `parse`, with the entry that is found.
abbrev pub first : CmdInfo
first = record new_cmd_info {
  cmd = 7;
  tcp_info = record { ip = codes "db"; port = 80 } ∷ [];
  req = codes "{}";
  thread_num = 2;
  load_test_time = 60;
  times_limit = 100;
  frequence = 10;
}

abbrev pub parsed : LoadTestConfig
parsed = record { config_list = first ∷ [] }

pub document_parsed : parse json [] new_config ≡ some (parsed, pos 0)
unfolding parse elements read_elements read_element read_entry get_text get_uint get_ulonglong
    insert find read_ip_port read_servers first_two sepstr sepstr_loop cut strto_ushort strtoul
    signed_value digits_value field nth doc_get doc_nth same_name
document_parsed = refl

-- An entry that asks for one request of one thread, without a limit of the rate, and with a log.
abbrev pub single_document : Doc
single_document = entries (
    (given (codes "cmd") (number 9)
      ∷ given (codes "ip_port") (text (codes "db:80"))
      ∷ given (codes "req") (text (codes "{}"))
      ∷ given (codes "assert") (text (codes "ok"))
      ∷ given (codes "thread_num") (number 1)
      ∷ given (codes "load_test_time") (number 60)
      ∷ given (codes "times_limit") (number 1)
      ∷ given (codes "frequence") (number 0)
      ∷ given (codes "log_file") (text (codes "a.log"))
      ∷ [])
    ∷ [])

abbrev pub single_json : Json
single_json = record json { tokener_parse = λ content. some single_document }

abbrev pub single : CmdInfo
single = record new_cmd_info {
  cmd = 9;
  tcp_info = record { ip = codes "db"; port = 80 } ∷ [];
  req = codes "{}";
  assert = codes "ok";
  thread_num = 1;
  load_test_time = 60;
  times_limit = 1;
  log_file = codes "a.log";
}

pub single_parsed :
    parse single_json [] new_config ≡ some (record { config_list = single ∷ [] }, pos 0)
unfolding parse elements read_elements read_element read_entry get_text get_uint get_ulonglong
    insert find read_ip_port read_servers first_two sepstr sepstr_loop cut strto_ushort strtoul
    signed_value digits_value field nth doc_get doc_nth same_name
single_parsed = refl

-- An entry that asks for two requests of one thread, at a rate of one a second, without a log.
abbrev pub slow_document : Doc
slow_document = entries (
    (given (codes "cmd") (number 5)
      ∷ given (codes "ip_port") (text (codes "db:80"))
      ∷ given (codes "req") (text (codes "{}"))
      ∷ given (codes "assert") (text (codes "ok"))
      ∷ given (codes "thread_num") (number 1)
      ∷ given (codes "load_test_time") (number 60)
      ∷ given (codes "times_limit") (number 2)
      ∷ given (codes "frequence") (number 1)
      ∷ given (codes "log_file") (text [])
      ∷ [])
    ∷ [])

abbrev pub slow_json : Json
slow_json = record json { tokener_parse = λ content. some slow_document }

abbrev pub slow : CmdInfo
slow = record new_cmd_info {
  cmd = 5;
  tcp_info = record { ip = codes "db"; port = 80 } ∷ [];
  req = codes "{}";
  assert = codes "ok";
  thread_num = 1;
  load_test_time = 60;
  times_limit = 2;
  frequence = 1;
}

pub slow_parsed : parse slow_json [] new_config ≡ some (record { config_list = slow ∷ [] }, pos 0)
unfolding parse elements read_elements read_element read_entry get_text get_uint get_ulonglong
    insert find read_ip_port read_servers first_two sepstr sepstr_loop cut strto_ushort strtoul
    signed_value digits_value field nth doc_get doc_nth same_name
slow_parsed = refl
