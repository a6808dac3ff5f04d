-- ===== src/Response/Whole.antt =====
-- tcinclude/tc_http.cpp, `decode` on a response with a length: a first line, fields, and a body.
use test_frame.Prelude.{
  ◌≡◌, refl, ap, sym, ◌∙◌, inl, inr, true, false, Bool-cases, Option, none, some, Option-cases,
  List, [], ◌∷◌, ◌++◌, length, All, Bytes, starts_with, contains, arith,
}
use mathlib.Core.List.{append_assoc}
use test_frame.Config.Split.{cut}
use test_frame.Response.{Field, parse_header, trim}
use test_frame.Response.Fields.{
  IsInLine, IsField, written, render, get_line-append, parse_header-render,
}
use test_frame.Response.Ends.{IsText, contains_of_starts}
use test_frame.Response.Chunks.{find_text-cons}
use test_frame.Response.Decode.{
  HttpResponse, new_response, crlf_crlf, c_str, find_text, blanks, set_status, on_first_line,
  parse_response_header,
}

find_text-line :
    (line text before behind : Bytes)
    → All IsInLine line
    → find_text crlf_crlf text ≡ some (before, behind)
    → find_text crlf_crlf (line ++ text) ≡ some (line ++ before, behind)
find_text-line [] text before behind v h = h
find_text-line (c ∷ line) text before behind v h =
    find_text-cons crlf_crlf c (line ++ text) (line ++ before) behind (ground (arith, v.0.0))
      (find_text-line line text before behind v.1 h)

find_text-break :
    (text before behind : Bytes)
    → starts_with (13 ∷ []) text ≡ false
    → find_text crlf_crlf text ≡ some (before, behind)
    → find_text crlf_crlf (13 ∷ 10 ∷ text) ≡ some (13 ∷ 10 ∷ before, behind)
find_text-break [] before behind other h =
    find_text-cons crlf_crlf 13 (10 ∷ []) (10 ∷ before) behind refl
      (find_text-cons crlf_crlf 10 [] before behind refl h)
find_text-break (c ∷ text) before behind other h =
    find_text-cons crlf_crlf 13 (10 ∷ c ∷ text) (10 ∷ before) behind (ground arith)
      (find_text-cons crlf_crlf 10 (c ∷ text) before behind refl h)

no_return :
    (f : Field) (rest : Bytes) (v : IsField f) → starts_with (13 ∷ []) (written f ++ rest) ≡ false
no_return f rest v = go f.name v.one_line
  where
    go :
        (name : Bytes)
        → All IsInLine (name ++ 58 ∷ 32 ∷ f.value)
        → starts_with (13 ∷ []) ((name ++ 58 ∷ 32 ∷ f.value) ++ rest) ≡ false
    go [] h = refl
    go (c ∷ name) h = ground (arith, h.0.0)

-- The end of the header is found where it was written.
pub find_text-render :
    (line : Bytes) (fields : List Field) (body : Bytes)
    → All IsInLine line
    → All IsField fields
    → (before : Bytes) × (find_text crlf_crlf (line ++ 13 ∷ 10 ∷ (render fields ++ body))
        ≡ some (before, body))
unfolding find_text
find_text-render line [] body l v =
    (line ++ [], find_text-line line (13 ∷ 10 ∷ 13 ∷ 10 ∷ body) [] body l refl)
find_text-render line (f ∷ fields) body l v =
    let (before, found) = find_text-render (written f) fields body v.0.one_line v.1 in
    let text = written f ++ 13 ∷ 10 ∷ (render fields ++ body) in
    (
      line ++ 13 ∷ 10 ∷ before,
      rw (append_assoc (written f) (13 ∷ 10 ∷ render fields) body) (
          find_text-line line (13 ∷ 10 ∷ text) (13 ∷ 10 ∷ before) body l (
            find_text-break text before body (no_return f (13 ∷ 10 ∷ (render fields ++ body)) v.0)
              found)),
    )

pub c_str-append : (a b : Bytes) → IsText a → c_str (a ++ b) ≡ a ++ c_str b
unfolding c_str
c_str-append [] b h = refl
c_str-append (c ∷ a) b h = rw (h.0, c_str-append a b h.1)

pub contains_of_found :
    (s text before behind : Bytes)
    → find_text s text ≡ some (before, behind)
    → contains s text ≡ true
unfolding find_text
contains_of_found s [] before behind h = absurd (cc)
contains_of_found s (c ∷ text) before behind h = elim (Bool-cases (starts_with s (c ∷ text))) [
  | inl e ↦ contains_of_starts s (c ∷ text) e
  | inr e ↦ elim (Option-cases (find_text s text)) [
    | inl f ↦ let never : find_text s (c ∷ text) ≡ none = rw (find_text, e, f) in absurd (cc)
    | inr ((b, r), f) ↦ rw e (contains_of_found s text b r f)
  ]
]

-- A response: its first line, its fields, and the body behind the empty line.
abbrev pub message : Bytes → List Field → Bytes → Bytes
message first fields body = first ++ 13 ∷ 10 ∷ (render fields ++ body)

-- A first line with a blank, and fields, each of them one line without a NUL.
pub record IsHead (first version reason : Bytes) (fields : List Field) : Type 0 where
  pub one_line : All IsInLine first
  pub no_nul : IsText first
  pub trimmed : trim first blanks true ≡ first
  pub blank : cut (32 ∷ []) first ≡ (version, some reason)
  pub are_fields : All IsField fields
  pub are_texts : All (λ f. IsText (written f)) fields

-- What is made of such a header.
abbrev pub read_head : Bytes → Bytes → Bytes → List Field → HttpResponse
read_head first version reason fields =
    let left = trim (32 ∷ reason) blanks true in
    record (set_status (length version) (cut (32 ∷ []) left) left
      (record new_response { header_line = first; version = version })) { headers = fields }

c_str-render :
    (fields : List Field) (body : Bytes)
    → All (λ f. IsText (written f)) fields
    → c_str (render fields ++ body) ≡ render fields ++ c_str body
unfolding c_str
c_str-render [] body h = refl
c_str-render (f ∷ fields) body h =
    rw
      (
        append_assoc (written f) (13 ∷ 10 ∷ render fields) body,
        c_str-append (written f) (13 ∷ 10 ∷ (render fields ++ body)) h.0,
        c_str,
        c_str-render fields body h.1,
      )
      (sym (append_assoc (written f) (13 ∷ 10 ∷ render fields) (c_str body)))

pub c_str-message :
    (first version reason : Bytes) (fields : List Field) (body : Bytes)
    → IsHead first version reason fields
    → c_str (message first fields body) ≡ message first fields (c_str body)
unfolding c_str
c_str-message first version reason fields body v =
    c_str-append first (13 ∷ 10 ∷ (render fields ++ body)) v.no_nul
    ∙ ap (λ (rest : Bytes). first ++ 13 ∷ 10 ∷ rest) (c_str-render fields body v.are_texts)

on_first_line_lem :
    (line version reason rest : Bytes) (fields : List Field) (parts : Bytes × Option Bytes)
    (r : HttpResponse)
    → parts ≡ (version, some reason)
    → parse_header rest ≡ some fields
    → let left = trim (32 ∷ reason) blanks true in
      on_first_line parts line (some rest) r
      ≡ some
          (record (set_status
            (length version)
            (cut (32 ∷ []) left)
            left
            (record r { version = version })) { headers = fields })
unfolding on_first_line
on_first_line_lem line version reason rest fields parts r e h =
    ap (λ (p : Bytes × Option Bytes). on_first_line p line (some rest) r) e ∙ rw (on_first_line, h)

pub parse_response_header-message :
    (first version reason : Bytes) (fields : List Field) (body : Bytes)
    → IsHead first version reason fields
    → parse_response_header (message first fields body) new_response
      ≡ some (read_head first version reason fields)
unfolding parse_response_header
parse_response_header-message first version reason fields body v =
    let rest = render fields ++ body in
    let after : Bytes × Option Bytes → Option HttpResponse = λ p.
      on_first_line (cut (32 ∷ []) (trim p.0 blanks true)) (trim p.0 blanks true) p.1
        (record new_response { header_line = trim p.0 blanks true }) in
    ap after (get_line-append first rest v.one_line)
    ∙ ap
        (λ (line : Bytes).
          on_first_line (cut (32 ∷ []) line) line (some rest)
            (record new_response { header_line = line }))
        v.trimmed
    ∙ on_first_line_lem first version reason rest fields (cut (32 ∷ []) first)
        (record new_response { header_line = first }) v.blank
        (parse_header-render fields body v.are_fields)
