-- ===== src/Config/Lookup.antt =====
-- loadConfig.cpp: which entry `get_config` finds after `parse`, and what holds of it.
use test_frame.Prelude.{
  ℕ, ◌≡◌, ◌≢◌, ◌⊎◌, inl, inr, refl, sym, ◌∙◌, Bool, true, false, ◌==◌, ==_iff, if◌then◌else◌,
  Bool-cases, Option, none, some, Option-cases, ap, pos, List, [], ◌∷◌, ◌++◌, Bytes, arith,
}
use test_frame.Config.{CmdInfo, Json, Parsed, ok, skipped, out_of_bounds}
use test_frame.Config.Load.{
  LoadTestConfig, new_config, find, insert, get_config, read_entry, read_element, read_elements,
  elements, parse,
}

abbrev pub or_else : Option CmdInfo → Option CmdInfo → Option CmdInfo
or_else none o = o
or_else (some info) o = some info

or_else-none : (o : Option CmdInfo) → o ≡ or_else o none
or_else-none none = refl
or_else-none (some x) = refl

find-append :
    (cmd : ℕ) (infos : List CmdInfo) (info : CmdInfo)
    → find cmd (infos ++ info ∷ [])
      ≡ or_else (find cmd infos) (if info.cmd == cmd then some info else none)
unfolding find
find-append cmd [] info = refl
find-append cmd (x ∷ infos) info = elim (Bool-cases (x.cmd == cmd)) [
  | inl e ↦ rw e
  | inr e ↦ rw (e, find-append cmd infos info)
]

-- An insertion under another key, or under a key that is taken, changes no search.
find-insert :
    (cmd : ℕ) (infos : List CmdInfo) (info : CmdInfo)
    → find cmd (insert info infos)
      ≡ or_else (find cmd infos) (if info.cmd == cmd then some info else none)
unfolding insert
find-insert cmd infos info = elim (Option-cases (find info.cmd infos)) [
  | inl e ↦ rw (e, insert) (find-append cmd infos info)
  | inr (old, e) ↦ elim (Bool-cases (info.cmd == cmd)) [
    | inr other ↦ rw (e, insert, other) (or_else-none (find cmd infos))
    | inl same ↦
        let k : info.cmd ≡ cmd = (==_iff info.cmd cmd).0 same in
        let f : find cmd infos ≡ some old = rw k at e in rw (e, insert, f)
  ]
]

module _ (j : Json) where
  open j use {Object, tokener_parse, is_array, array_length}

  -- The first element of the array that is a well-formed entry with this command.
  unfoldable pub first_entry : ℕ → List (Option Object) → Option CmdInfo
  first_entry cmd [] = none
  first_entry cmd (e ∷ es) =
      let rest = first_entry cmd es in
      elim (read_element j e) [
        | ok info ↦ if info.cmd == cmd then some info else rest
        | skipped ↦ rest
        | out_of_bounds ↦ rest
      ]

  or_else_assoc :
      (o : Option CmdInfo) (b : Bool) (info : CmdInfo) (p : Option CmdInfo)
      → or_else (or_else o (if b then some info else none)) p
        ≡ or_else o (if b then some info else p)
  or_else_assoc none true info p = refl
  or_else_assoc none false info p = refl
  or_else_assoc (some x) b info p = refl

  pub Parsed-cases :
      (p : Parsed CmdInfo)
      → ((info : CmdInfo) × (p ≡ ok info)) ⊎ (p ≡ skipped) ⊎ (p ≡ out_of_bounds)
  Parsed-cases (ok info) = inl (info, refl)
  Parsed-cases skipped = inr (inl refl)
  Parsed-cases out_of_bounds = inr (inr refl)

  find-read_elements :
      (cmd : ℕ) (es : List (Option Object)) (infos : List CmdInfo) (result : List CmdInfo)
      → read_elements j es infos ≡ some result
      → find cmd result ≡ or_else (find cmd infos) (first_entry cmd es)
  unfolding read_elements first_entry
  find-read_elements cmd [] infos result h =
      let e : infos ≡ result = cc in rw (← e) (or_else-none (find cmd infos))
  find-read_elements cmd (e ∷ es) infos result h = elim (Parsed-cases (read_element j e)) [
    | inl (info, r) ↦
        let later : read_elements j es (insert info infos) ≡ some result =
          rw (r, read_elements) at h in
        rw (r, first_entry)
          (find-read_elements cmd es (insert info infos) result later
            ∙ ap (λ o. or_else o (first_entry cmd es)) (find-insert cmd infos info)
            ∙ or_else_assoc (find cmd infos) (info.cmd == cmd) info (first_entry cmd es))
    | inr (inl r) ↦
        let later : read_elements j es infos ≡ some result = rw (r, read_elements) at h in
        rw (r, first_entry) (find-read_elements cmd es infos result later)
    | inr (inr r) ↦
        let never : ◌≡◌ {A = Option (List CmdInfo)} none (some result) =
          rw (r, read_elements) at h in
        absurd (cc)
  ]

  -- After a successful `parse` of a new configuration, `get_config` finds for every command the first
  -- well-formed entry of the array with that command, and fails exactly if there is none: entries that
  -- are skipped and later entries of the same command have no part in it.
  pub get_config-parse :
      (content : Bytes) (root : Object) (c : LoadTestConfig) (cmd : ℕ)
      → tokener_parse content ≡ some root
      → is_array root ≡ true
      → parse j content new_config ≡ some (c, pos 0)
      → get_config cmd c ≡ first_entry cmd (elements j root 0 (array_length root))
  unfolding parse get_config
  get_config-parse content root c cmd t a h =
      elim (Option-cases (read_elements j (elements j root 0 (array_length root)) [])) [
        | inl r ↦ absurd (ground arith)
        | inr (infos, r) ↦
            let kept : c.config_list ≡ infos = ground arith in
            rw kept (find-read_elements cmd (elements j root 0 (array_length root)) [] infos r)
      ]

-- What holds of an entry in the list.
pub record IsEntry (info : CmdInfo) : Type 0 where
  pub some_cmd : info.cmd ≢ 0
  pub no_pre_req : info.pre_req ≡ []

module _ (j : Json) where
  open j use {Object, tokener_parse, is_array, array_length}

  read_entry-IsEntry : (obj : Object) (info : CmdInfo) → read_entry j obj ≡ ok info → IsEntry info
  unfolding read_entry
  read_entry-IsEntry obj info h = ground arith

  read_element-IsEntry :
      (e : Option Object) (info : CmdInfo) → read_element j e ≡ ok info → IsEntry info
  unfolding read_element
  read_element-IsEntry none info h = cc
  read_element-IsEntry (some obj) info h = read_entry-IsEntry obj info h

  -- What holds of every entry that is read holds of the one that is found.
  pub first_entry-holds :
      (P : CmdInfo → Type 0)
      → ((e : Option Object) (info : CmdInfo) → read_element j e ≡ ok info → P info)
      → (cmd : ℕ) (es : List (Option Object)) (info : CmdInfo) → first_entry j cmd es ≡ some info
      → (info.cmd ≡ cmd) × P info
  unfolding first_entry
  first_entry-holds P each cmd [] info h = absurd (cc)
  first_entry-holds P each cmd (e ∷ es) info h = elim (Parsed-cases j (read_element j e)) [
    | inl (x, r) ↦ elim (Bool-cases (x.cmd == cmd)) [
      | inl hit ↦
          let found : x ≡ info = ground (arith, r, hit) in
          rw (← found) ((==_iff x.cmd cmd).0 hit, each e x r)
      | inr miss ↦ first_entry-holds P each cmd es info (ground (arith, r, miss))
    ]
    | inr (inl r) ↦ first_entry-holds P each cmd es info (ground (arith, r))
    | inr (inr r) ↦ first_entry-holds P each cmd es info (ground (arith, r))
  ]

  -- What `get_config` finds after a successful `parse` has the command that was asked for, which is not
  -- 0, and no request to send before the test: `parse` never reads the field "pre_req".
  pub get_config-IsEntry :
      (content : Bytes) (root : Object) (c : LoadTestConfig) (cmd : ℕ) (info : CmdInfo)
      → tokener_parse content ≡ some root
      → is_array root ≡ true
      → parse j content new_config ≡ some (c, pos 0)
      → get_config cmd c ≡ some info
      → (info.cmd ≡ cmd) × IsEntry info
  get_config-IsEntry content root c cmd info t a h g =
      first_entry-holds IsEntry read_element-IsEntry cmd (elements j root 0 (array_length root))
        info (sym (get_config-parse j content root c cmd t a h) ∙ g)
