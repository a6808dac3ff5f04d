-- ===== src/Config/Ranges.antt =====
-- loadConfig.cpp: the numbers of an entry, within the types of their fields.
use test_frame.Prelude.{
  ℕ, ◌^◌, ◌<◌, ◌≡◌, inl, inr, sym, ◌∙◌, true, ◌==◌, ◌&&◌, not, Bool-cases, Option, none, some,
  Option-cases, ℤ, pos, negsuc, to_bits, List, [], ◌∷◌, Bytes, arith, All, is_empty, codes,
}
use test_frame.Config.{
  TcpInfo, CmdInfo, new_cmd_info, Json, Parsed, ok, skipped, out_of_bounds, ◌>>=◌, skip_if,
  read_servers, read_ip_port, push_server, first_two, colon, bar,
}
use test_frame.Config.Split.{sepstr, strto_ushort}
use test_frame.Config.Load.{
  LoadTestConfig, new_config, get_config, get_uint, get_ulonglong, get_text, required, optional,
  read_entry, read_element, elements, parse,
}
use test_frame.Config.Lookup.{first_entry-holds, get_config-parse}

abbrev pub IsPort : TcpInfo → Type 0
IsPort t = t.port < 2 ^ 16

-- `unsigned int` has 32 bits, `unsigned long long` 64.
pub record IsRanged (info : CmdInfo) : Type 0 where
  pub cmd_fits : info.cmd < 2 ^ 32
  pub ports_fit : All IsPort info.tcp_info
  pub thread_num_fits : info.thread_num < 2 ^ 32
  pub load_test_time_fits : info.load_test_time < 2 ^ 32
  pub times_limit_fits : info.times_limit < 2 ^ 64
  pub frequence_fits : info.frequence < 2 ^ 64

-- What holds of a value, if there is one.
abbrev pub IfOk {ℓ} : {A : Type ℓ} → (A → Type 0) → Parsed A → Type 0
IfOk P (ok a) = P a
IfOk P _ = Unit {0}

pub IfOk-bind {ℓ κ} :
    {A : Type ℓ} {B : Type κ} (Q : A → Type 0) (P : B → Type 0) (m : Parsed A) (f : A → Parsed B)
    → IfOk Q m
    → ((a : A) → Q a → IfOk P (f a))
    → IfOk P (m >>= f)
IfOk-bind Q P (ok a) f q h = h a q
IfOk-bind Q P skipped f q h = tt
IfOk-bind Q P out_of_bounds f q h = tt

-- Where nothing is wanted of the value.
pub IfOk-then {ℓ κ} :
    {A : Type ℓ} {B : Type κ} (P : B → Type 0) (m : Parsed A) (f : A → Parsed B)
    → ((a : A) → IfOk P (f a))
    → IfOk P (m >>= f)
IfOk-then P (ok a) f h = h a
IfOk-then P skipped f h = tt
IfOk-then P out_of_bounds f h = tt

abbrev IsBelow : ℕ → Option ℕ → Type 0
IsBelow n none = Unit {0}
IsBelow n (some m) = m < n

strto_ushort-lt : (text : Bytes) → strto_ushort text < 2 ^ 16
unfolding strto_ushort
strto_ushort-lt text = elim (Bool-cases (is_empty text)) [
  | inl e ↦ rw e (omega arith)
  | inr e ↦ rw e (omega arith)
]

push_server-IsPort :
    (ip port : Bytes) (servers : List TcpInfo)
    → All IsPort servers
    → All IsPort (push_server ip port servers)
push_server-IsPort ip port servers h =
    elim (Bool-cases (not (is_empty ip) && not (is_empty port))) [
      | inl e ↦ rw e (strto_ushort-lt port, h)
      | inr e ↦ rw e h
    ]

read_servers-IsPort : (pieces : List Bytes) → IfOk (All IsPort) (read_servers pieces)
unfolding read_servers
read_servers-IsPort [] = tt
read_servers-IsPort (piece ∷ pieces) =
    IfOk-then (All IsPort) (first_two (sepstr colon piece)) _ (λ parts.
      IfOk-bind (All IsPort) (All IsPort) (read_servers pieces) _ (read_servers-IsPort pieces)
        (λ servers h. push_server-IsPort parts.0 parts.1 servers h))

read_ip_port-IsPort : (text : Bytes) → IfOk (All IsPort) (read_ip_port text)
unfolding read_ip_port
read_ip_port-IsPort text = read_servers-IsPort (sepstr bar text)

to_bits_32-lt : (z : ℤ) → to_bits 32 z < 2 ^ 32
to_bits_32-lt (pos n) = omega arith
to_bits_32-lt (negsuc n) = omega arith

to_bits_64-lt : (z : ℤ) → to_bits 64 z < 2 ^ 64
to_bits_64-lt (pos n) = omega arith
to_bits_64-lt (negsuc n) = omega arith

module _ (j : Json) where
  open j use {Object, tokener_parse, is_array, array_length, object_get, is_int, get_int, get_int64}

  get_uint-IsBelow : (obj : Object) (name : Bytes) → IsBelow (2 ^ 32) (get_uint j obj name)
  unfolding get_uint
  get_uint-IsBelow obj name = elim (Option-cases (object_get obj name)) [
    | inl e ↦ rw (IsBelow, e) tt
    | inr (o, e) ↦ elim (Bool-cases (is_int o)) [
      | inl i ↦ rw (IsBelow, e, i) (to_bits_32-lt (get_int o))
      | inr i ↦ rw (IsBelow, e, i) tt
    ]
  ]

  get_ulonglong-IsBelow :
      (obj : Object) (name : Bytes) → IsBelow (2 ^ 64) (get_ulonglong j obj name)
  unfolding get_ulonglong
  get_ulonglong-IsBelow obj name = elim (Option-cases (object_get obj name)) [
    | inl e ↦ rw (IsBelow, e) tt
    | inr (o, e) ↦ elim (Bool-cases (is_int o)) [
      | inl i ↦ rw (IsBelow, e, i) (to_bits_64-lt (get_int64 o))
      | inr i ↦ rw (IsBelow, e, i) tt
    ]
  ]

  required-lt : (b : ℕ) (o : Option ℕ) → IsBelow b o → IfOk (λ n. n < b) (required j o)
  required-lt b none h = tt
  required-lt b (some n) h = h

  ranged :
      (info : CmdInfo)
      → info.cmd < 2 ^ 32
      → All IsPort info.tcp_info
      → info.thread_num < 2 ^ 32
      → info.load_test_time < 2 ^ 32
      → info.times_limit < 2 ^ 64
      → info.frequence < 2 ^ 64
      → IfOk IsRanged (ok info)
  ranged info c p t d n q = record {
    cmd_fits = c;
    ports_fit = p;
    thread_num_fits = t;
    load_test_time_fits = d;
    times_limit_fits = n;
    frequence_fits = q;
  }

  read_entry-IsRanged : (obj : Object) → IfOk IsRanged (read_entry j obj)
  unfolding read_entry
  read_entry-IsRanged obj =
      let uint =
        λ (name : Bytes). required-lt (2 ^ 32) (get_uint j obj name) (get_uint-IsBelow obj name) in
      let ulonglong = λ (name : Bytes).
        required-lt (2 ^ 64) (get_ulonglong j obj name) (get_ulonglong-IsBelow obj name) in
      IfOk-bind (λ n. n < 2 ^ 32) IsRanged _ _ (uint (codes "cmd"))
        (λ cmd c. IfOk-then IsRanged (skip_if (cmd == 0)) _ (λ _.
          IfOk-then IsRanged (required j (get_text j obj (codes "ip_port"))) _ (λ ip_port.
            IfOk-bind (All IsPort) IsRanged _ _ (read_ip_port-IsPort ip_port) (λ tcp_info p.
              IfOk-then IsRanged (required j (get_text j obj (codes "req"))) _ (λ req.
                IfOk-bind (λ n. n < 2 ^ 32) IsRanged _ _ (uint (codes "thread_num"))
                  (λ thread_num t.
                    IfOk-bind (λ n. n < 2 ^ 32) IsRanged _ _ (uint (codes "load_test_time"))
                      (λ load_test_time d.
                        IfOk-bind (λ n. n < 2 ^ 64) IsRanged _ _ (ulonglong (codes "times_limit"))
                          (λ times_limit n.
                            IfOk-bind (λ n. n < 2 ^ 64) IsRanged _ _ (ulonglong (codes "frequence"))
                              (λ frequence q.
                                IfOk-then IsRanged (required j (get_text j obj (codes "log_file")))
                                  _
                                  (λ log_file.
                                    ranged
                                      (record new_cmd_info {
                                        cmd = cmd;
                                        tcp_info = tcp_info;
                                        req = req;
                                        pre_assert =
                                            optional j new_cmd_info.pre_assert
                                              (get_text j obj (codes "pre_assert"));
                                        assert =
                                            optional j new_cmd_info.assert
                                              (get_text j obj (codes "assert"));
                                        thread_num = thread_num;
                                        load_test_time = load_test_time;
                                        times_limit = times_limit;
                                        frequence = frequence;
                                        log_file = log_file;
                                      })
                                      c p t d n q))))))))))

  read_element-IsRanged :
      (e : Option Object) (info : CmdInfo) → read_element j e ≡ ok info → IsRanged info
  unfolding read_element
  read_element-IsRanged none info h = absurd (cc)
  read_element-IsRanged (some obj) info h = rw h at (read_entry-IsRanged obj)

  -- What `get_config` finds after a successful `parse` is within the types of the program, whatever
  -- numbers stand in the file: the command, the number of threads and the time are below 2 ^ 32, the
  -- two limits below 2 ^ 64, and the port of each server is below 2 ^ 16.
  pub get_config-IsRanged :
      (content : Bytes) (root : Object) (c : LoadTestConfig) (cmd : ℕ) (info : CmdInfo)
      → tokener_parse content ≡ some root
      → is_array root ≡ true
      → parse j content new_config ≡ some (c, pos 0)
      → get_config cmd c ≡ some info
      → IsRanged info
  get_config-IsRanged content root c cmd info t a h g =
      (first_entry-holds j IsRanged read_element-IsRanged cmd
        (elements j root 0 (array_length root)) info
        (sym (get_config-parse j content root c cmd t a h) ∙ g)).1
