-- ===== src/Main/Start.antt =====
-- testexample.cpp, `main`: what it runs the frame with.
use test_frame.Prelude.{
  ℕ, ◌≤◌, ◌≡◌, ◌≢◌, inl, inr, refl, ◌∙◌, ap, true, false, ◌==◌, ltb, ◌&&◌, Bool-cases, Option, none,
  some, Option-cases, ℤ, pos, negsuc, pos_part, neg_part, to_bits, Bytes, arith,
}
use test_frame.Frame.{TestFrame}
use test_frame.Config.{CmdInfo, Json, Files}
use test_frame.Config.Load.{LoadTestConfig, new_config, init, get_config, parse}
use test_frame.Config.Lookup.{IsEntry, get_config-IsEntry}
use test_frame.Config.Ranges.{IsRanged, get_config-IsRanged}
use test_frame.TestCase.{LogFile, TestCaseIot}
use test_frame.Main.{exits, runs, undefined, case_of, set_up, open_log, run_case, with_config, main}

-- What a run of the frame is made of.
pub record IsRun (pointer : ℕ) (file : Option ℕ) (stamp : Bytes) (cmd : ℤ) (info : CmdInfo)
    (frame : TestFrame) (test : TestCaseIot) (l : LogFile) : Type 0 where
  pub asked_for : info.cmd ≡ to_bits 32 cmd
  pub entry : IsEntry info
  pub ranged : IsRanged info
  pub framed : frame ≡ set_up pointer info
  pub tested : test ≡ case_of info
  pub opened : open_log info file stamp ≡ some l

run_case-runs :
    (pointer : ℕ) (file : Option ℕ) (stamp : Bytes) (x info : CmdInfo) (frame : TestFrame)
    (test : TestCaseIot) (l : LogFile)
    → run_case pointer file stamp x ≡ runs info frame test l
    → (x ≡ info)
      × (frame ≡ set_up pointer info)
      × (test ≡ case_of info)
      × (open_log info file stamp ≡ some l)
unfolding run_case
run_case-runs pointer file stamp x info frame test l h =
    elim (Option-cases (open_log x file stamp)) [
      | inl e ↦
          let never : undefined ≡ runs info frame test l = rw (run_case, e) at h in absurd (cc)
      | inr (log, e) ↦
          let started : runs x (set_up pointer x) (case_of x) log ≡ runs info frame test l =
            rw (run_case, e) at h in
          let same : x ≡ info = cc in
          let same_log : log ≡ l = cc in (same, cc, cc, (rw same at e) ∙ ap some same_log)
    ]

module _ (j : Json) (files : Files) where
  open j use {Object, tokener_parse, is_array}

  parse-ok :
      (content : Bytes) (c : LoadTestConfig) (ret : ℤ)
      → parse j content new_config ≡ some (c, ret)
      → (pos_part ret == 0 && neg_part ret == 0) ≡ true
      → (root : Object) × (tokener_parse content ≡ some root)
        × (is_array root ≡ true)
        × (ret ≡ pos 0)
  unfolding parse
  parse-ok content c ret h zero_ret = elim (Option-cases (tokener_parse content)) [
    | inl e ↦
        let failed : ret ≡ negsuc 0 = ground (arith, e) in
        let never : false ≡ true = rw failed at zero_ret in absurd (cc)
    | inr (root, e) ↦ elim (Bool-cases (is_array root)) [
      | inr a ↦
          let failed : ret ≡ negsuc 1 = ground (arith, e, a) in
          let never : false ≡ true = rw failed at zero_ret in absurd (cc)
      | inl a ↦ (root, e, a, ground (arith, e, a))
    ]
  ]

  with_config-runs :
      (pointer : ℕ) (file : Option ℕ) (stamp content : Bytes) (cmd : ℤ)
      (o : Option (LoadTestConfig × ℤ)) (info : CmdInfo) (frame : TestFrame) (test : TestCaseIot)
      (l : LogFile)
      → parse j content new_config ≡ o
      → with_config j files pointer file stamp cmd o ≡ runs info frame test l
      → IsRun pointer file stamp cmd info frame test l
  unfolding with_config
  with_config-runs pointer file stamp content cmd none info frame test l p h = absurd (cc)
  with_config-runs pointer file stamp content cmd (some (c, ret)) info frame test l p h =
      elim (Bool-cases (pos_part ret == 0 && neg_part ret == 0)) [
        | inr e ↦
            let never : exits (negsuc 0) ≡ runs info frame test l = rw (with_config, e) at h in
            absurd (cc)
        | inl e ↦ elim (Option-cases (get_config (to_bits 32 cmd) c)) [
          | inl g ↦
              let never : exits (negsuc 1) ≡ runs info frame test l = rw (with_config, e, g) at h in
              absurd (cc)
          | inr (x, g) ↦
              let started : run_case pointer file stamp x ≡ runs info frame test l =
                rw (with_config, e, g) at h in
              let (same, framed, tested, opened) =
                run_case-runs pointer file stamp x info frame test l started in
              let (root, t, a, z) = parse-ok content c ret p e in
              let parsed : parse j content new_config ≡ some (c, pos 0) =
                p ∙ ap (λ (k : ℤ). some (c, k)) z in
              let found = g ∙ ap some same in
              let entry =
                get_config-IsEntry j content root c (to_bits 32 cmd) info t a parsed found in
              record {
                asked_for = entry.0;
                entry = entry.1;
                ranged =
                    get_config-IsRanged j content root c (to_bits 32 cmd) info t a parsed found;
                framed = framed;
                tested = tested;
                opened = opened;
              }
        ]
      ]

  no_config :
      (pointer : ℕ) (file : Option ℕ) (stamp : Bytes) (cmd : ℤ) (info : CmdInfo) (frame : TestFrame)
      (test : TestCaseIot) (l : LogFile)
      → with_config j files pointer file stamp cmd (some (new_config, negsuc 0))
        ≢ runs info frame test l
  unfolding with_config
  no_config pointer file stamp cmd info frame test l h = cc

  pub main-IsRun :
      (pointer : ℕ) (file : Option ℕ) (stamp : Bytes) (argc : ℕ) (filename : Bytes) (cmd : ℤ)
      (info : CmdInfo) (frame : TestFrame) (test : TestCaseIot) (l : LogFile)
      → main j files pointer file stamp argc filename cmd ≡ runs info frame test l
      → (3 ≤ argc)
        × (files.is_file_exist filename ≡ true)
        × IsRun pointer file stamp cmd info frame test l
  unfolding main init
  main-IsRun pointer file stamp argc filename cmd info frame test l h =
      let content = files.load_to_str filename in
      elim (Bool-cases (ltb argc 3)) [
        | inl few ↦
            let never : exits (pos 0) ≡ runs info frame test l = rw (main, few) at h in absurd (cc)
        | inr enough ↦ elim (Bool-cases (files.is_file_exist filename)) [
          | inr missing ↦
              let never : with_config j files pointer file stamp cmd (some (new_config, negsuc 0))
                  ≡ runs info frame test l =
                rw (main, enough, init, missing) at h in
              absurd (no_config pointer file stamp cmd info frame test l never)
          | inl there ↦
              let started : with_config j files pointer file stamp cmd (parse j content new_config)
                  ≡ runs info frame test l =
                rw (main, enough, init, there) at h in
              (
                ground arith,
                there,
                with_config-runs pointer file stamp content cmd (parse j content new_config) info
                    frame test l refl started,
              )
        ]
      ]
