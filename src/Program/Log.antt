-- ===== src/Program/Log.antt =====
-- What the threads write to the log that they share.
use test_frame.Prelude.{
  ℕ, ◌≡◌, refl, sym, ap, ◌∙◌, inl, inr, Bool-cases, if◌then◌else◌, Option, none, some, Option-cases,
  ℤ, List, [], ◌∷◌, ◌++◌, is_empty, Bytes, arith,
}
use mathlib.Core.List.{append_assoc, append-nil}
use test_frame.Frame.{TestFrame}
use test_frame.Frame.Worker.{is_zero}
use test_frame.Client.{Outcome, returns, waiting, out_of_bounds, tcp_iot, Network, Client}
use test_frame.TestCase.{
  LogFile, TestCaseIot, Tested, ended, undefined, log, put_text, verdict, judge, execute,
  pre_execute,
}
use test_frame.Program.{
  Process, Act, silent, prepared, tested, pre_asked, Turn, main, work, init, prepare, test, Ran,
  called, and_then,
}

-- The line of a request that ended with SDK_SUCCESS: the response behind the stamp, up to a NUL.
abbrev pub line : TestCaseIot → Bytes → Outcome → Bytes
line tc stamp (returns code rsp) =
    if is_zero code then (if is_empty tc.log_file then [] else put_text (stamp ++ rsp)) else []
line tc stamp waiting = []
line tc stamp out_of_bounds = []

abbrev pub pre_line : TestCaseIot → Bytes → Option Outcome → Bytes
pre_line tc stamp none = []
pre_line tc stamp (some o) = line tc stamp o

abbrev pub lines : TestCaseIot → List Act → Bytes
lines tc [] = []
lines tc (silent l ∷ acts) = lines tc acts
lines tc (prepared stamp o ∷ acts) = lines tc acts ++ pre_line tc stamp o
lines tc (tested stamp o ∷ acts) = lines tc acts ++ line tc stamp o

-- `text` is what was added to the log.
pub record Extends (before after : LogFile) (text : Bytes) : Type 0 where
  pub same_handle : after.handle ≡ before.handle
  pub added : after.written ≡ before.written ++ text

Extends-same : (l : LogFile) → Extends l l []
Extends-same l = record { same_handle = refl; added = sym (append-nil l.written) }

Extends-then :
    (a b c : LogFile) (text more : Bytes)
    → Extends a b text
    → Extends b c more
    → Extends a c (text ++ more)
Extends-then a b c text more first second = record {
  same_handle = second.same_handle ∙ first.same_handle;
  added =
      second.added ∙ ap (λ (x : Bytes). x ++ more) first.added ∙ append_assoc a.written text more;
}

pub log-Extends :
    (stamp text : Bytes) (l l' : LogFile)
    → log stamp text l ≡ some l'
    → Extends l l' (put_text (stamp ++ text))
unfolding log
log-Extends stamp text l l' h = elim (Option-cases l.handle) [
  | inl e ↦ let never : none ≡ some l' = rw (e, log) at h in absurd (cc)
  | inr (file, e) ↦
      let after : some (record l { written = l.written ++ put_text (stamp ++ text) }) ≡ some l' =
        rw (e, log) at h in
      record { same_handle = cc; added = cc }
]

judge-Extends :
    (tc : TestCaseIot) (assert stamp : Bytes) (l l' : LogFile) (rc : ℤ) (o : Outcome)
    → judge tc assert stamp l o ≡ ended rc l'
    → Extends l l' (line tc stamp o)
unfolding judge
judge-Extends tc assert stamp l l' rc waiting h = absurd (cc)
judge-Extends tc assert stamp l l' rc out_of_bounds h = absurd (cc)
judge-Extends tc assert stamp l l' rc (returns code rsp) h = elim (Bool-cases (is_zero code)) [
  | inr e ↦ let after : l ≡ l' = ground (arith, e) in rw (e, ← after) (Extends-same l)
  | inl e ↦ elim (Bool-cases (is_empty tc.log_file)) [
    | inl no_log ↦
        let after : l ≡ l' = ground (arith, e, no_log) in rw (e, no_log, ← after) (Extends-same l)
    | inr has_log ↦ elim (Option-cases (log stamp rsp l)) [
      | inl w ↦ let never : undefined ≡ ended rc l' = rw (e, has_log, w, judge) at h in absurd (cc)
      | inr (written, w) ↦
          let after : ended (verdict assert rsp) written ≡ ended rc l' =
            rw (e, has_log, w, judge) at h in
          let same : written ≡ l' = cc in
          rw (e, has_log) (log-Extends stamp rsp l l' (w ∙ ap some same))
    ]
  ]
]

execute-Extends :
    (tc : TestCaseIot) (net : Network) (stamp : Bytes) (c c' : Client) (l l' : LogFile) (rc : ℤ)
    → execute tc net stamp c l ≡ (c', ended rc l')
    → Extends l l' (line tc stamp (tcp_iot c net tc.req []).1)
unfolding execute
execute-Extends tc net stamp c c' l l' rc h =
    judge-Extends tc tc.assert stamp l l' rc (tcp_iot c net tc.req []).1
      (ap (λ (x : Client × Tested). x.1) h)

pre_execute-Extends :
    (tc : TestCaseIot) (net : Network) (stamp : Bytes) (c c' : Client) (l l' : LogFile) (rc : ℤ)
    → pre_execute tc net stamp c l ≡ (c', ended rc l')
    → Extends l l' (pre_line tc stamp (pre_asked tc net c))
unfolding pre_execute
pre_execute-Extends tc net stamp c c' l l' rc h = elim (Bool-cases (is_empty tc.pre_req)) [
  | inl e ↦
      let after = ap (λ (x : Client × Tested). x.1) (rw (e, pre_execute) at h) in
      let same : l ≡ l' = cc in rw (e, ← same) (Extends-same l)
  | inr e ↦
      let after = ap (λ (x : Client × Tested). x.1) (rw (e, pre_execute) at h) in
      rw e (judge-Extends tc tc.pre_assert stamp l l' rc (tcp_iot c net tc.pre_req []).1 after)
]

Turn-Extends :
    {tc : TestCaseIot} {n : ℕ} {p q : Process} {a : Act} (acts : List Act) (l : LogFile)
    → Turn tc n p a q
    → Extends l p.log_file (lines tc acts)
    → Extends l q.log_file (lines tc (a ∷ acts))
Turn-Extends acts l (main d) e = e
Turn-Extends acts l (work i lt on free mv) e = e
Turn-Extends acts l (init i lt on h) e = e
Turn-Extends {tc} {p = p} acts l (prepare i net stamp {rc = rc} {c = c} {l = l'} lt on h r) e =
    Extends-then l p.log_file l' (lines tc acts) _ e
      (pre_execute-Extends tc net stamp (p.client i) c p.log_file l' rc r)
Turn-Extends {tc} {p = p} acts l (test i net stamp begin end {rc = rc} {c = c} {l = l'} lt on h r)
      e =
    Extends-then l p.log_file l' (lines tc acts) _ e
      (execute-Extends tc net stamp (p.client i) c p.log_file l' rc r)

-- The log loses nothing and holds nothing else: in all runs, whatever the network answers, what has been
-- written to the log since the threads were started is, where a log is configured, one text for each
-- request that ended with SDK_SUCCESS, in the order of their ends: the stamp and the response, up to the
-- first NUL; without a log it is nothing; and the handle is the one that it was opened with.
pub Ran-Extends :
    {tc : TestCaseIot} {f : TestFrame} {l : LogFile} {acts : List Act} {p : Process}
    → Ran tc f l acts p
    → Extends l p.log_file (lines tc acts)
Ran-Extends {l = l} called = Extends-same l
Ran-Extends {l = l} (and_then {acts = acts} r t) = Turn-Extends acts l t (Ran-Extends r)
