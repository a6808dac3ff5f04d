-- ===== src/Response/Decode.antt =====
-- tcinclude/tc_http.cpp, TC_HttpResponse: the first line, the header, the chunks and the body of a
-- response. `none` is a read behind the NUL of a C string, or behind an array.
use test_frame.Prelude.{
  ℕ, zero, suc, ◌+◌, ◌-◌, ◌%◌, ◌^◌, ◌==◌, leb, if◌then◌else◌, Bool, true, false, ◌&&◌, ◌||◌, not,
  Option, none, some, ℤ, pos, pos_part, neg_part, is_pos, List, [], ◌∷◌, ◌++◌, is_empty, length,
  take, drop, Bytes, codes, eqb_bytes, starts_with,
}
use test_frame.Text.{decimal, strtol, strstr, to_int, atoi}
use test_frame.Config.Split.{cut, strtoul}
use test_frame.Response.{Field, trim, get_line, upper, parse_header, get_header}

pub record HttpResponse : Type 0 where
  pub headers : List Field
  pub head_length : ℕ
  pub content : Bytes
  pub is_chunked : Bool
  pub status : ℤ
  pub about : Bytes
  pub version : Bytes
  pub header_line : Bytes
  pub tmp_content_length : ℕ

-- The constructor, by way of `reset`. The flag is set there too.
abbrev pub new_response : HttpResponse
new_response = record {
  headers = [];
  head_length = 0;
  content = [];
  is_chunked = false;
  status = pos 200;
  about = codes "OK";
  version = codes "HTTP/1.1";
  header_line = [];
  tmp_content_length = 0;
}

-- `(size_t)-1`
abbrev pub no_length : ℕ
no_length = 2 ^ 64 - 1

-- The C string at the start of a text.
unfoldable pub c_str : Bytes → Bytes
c_str [] = []
c_str (c ∷ text) = let rest = c_str text in if c == 0 then [] else c ∷ rest

-- `find`, with the text before and the text behind what is found.
unfoldable pub find_text : Bytes → Bytes → Option (Bytes × Bytes)
find_text s [] = none
find_text s (c ∷ text) = elim (starts_with s (c ∷ text)) [
  | true ↦ some ([], drop (length s) (c ∷ text))
  | false ↦ elim (find_text s text) [
    | none ↦ none
    | some (before, behind) ↦ some (c ∷ before, behind)
  ]
]

abbrev pub blanks : Bytes
blanks = 32 ∷ 13 ∷ 10 ∷ 9 ∷ []

abbrev pub crlf : Bytes
crlf = 13 ∷ 10 ∷ []

abbrev pub crlf_crlf : Bytes
crlf_crlf = 13 ∷ 10 ∷ 13 ∷ 10 ∷ []

-- The status and the text about it, of what stands behind the first blank; `n` is where that blank was.
unfoldable pub set_status : ℕ → Bytes × Option Bytes → Bytes → HttpResponse → HttpResponse
unfolding trim
set_status n (before, none) left r = record r { status = atoi left; about = [] }
set_status n (before, some behind) left r = record r {
  status = atoi (take n left);
  about = trim behind blanks true;
}

abbrev pub with_headers : Option (List Field) → HttpResponse → Option HttpResponse
with_headers none r = none
with_headers (some fields) r = some (record r { headers = fields })

-- `parseResponseHeader` behind the first line, at the blank of that line.
unfoldable pub on_first_line :
    Bytes × Option Bytes → Bytes → Option Bytes → HttpResponse → Option HttpResponse
unfolding set_status parse_header cut trim
on_first_line (version, none) line rest r =
    some (record r { version = line; status = pos 0; about = [] })
on_first_line (version, some behind) line none r = none
on_first_line (version, some behind) line (some rest) r =
    let left = trim (32 ∷ behind) blanks true in
    with_headers (parse_header rest)
      (set_status (length version) (cut (32 ∷ []) left) left (record r { version = version }))

unfoldable pub parse_response_header : Bytes → HttpResponse → Option HttpResponse
unfolding on_first_line get_line cut trim
parse_response_header text r =
    let (first, rest) = get_line text in
    let line = trim first blanks true in
    on_first_line (cut (32 ∷ []) line) line rest (record r { header_line = line })

unfoldable pub has_header : Bytes → List Field → Bool
has_header name [] = false
has_header name (f ∷ fields) = eqb_bytes (upper f.name) (upper name) || has_header name fields

unfoldable pub erase_header : Bytes → List Field → List Field
erase_header name [] = []
erase_header name (f ∷ fields) =
    let rest = erase_header name fields in
    if eqb_bytes (upper f.name) (upper name) then rest else f ∷ rest

abbrev pub content_length : Bytes
content_length = codes "Content-Length"

abbrev pub transfer_encoding : Bytes
transfer_encoding = codes "Transfer-Encoding"

-- `getContentLength`
unfoldable pub get_content_length : List Field → ℕ
unfolding get_header strtoul
get_content_length fields =
    let s = get_header content_length fields in if is_empty s then 0 else strtoul s

-- `setContentLength`, by way of `setHeader`.
unfoldable pub set_content_length : ℕ → HttpResponse → HttpResponse
unfolding erase_header decimal
set_content_length n r = record r {
  headers =
      erase_header content_length r.headers
      ++ (record { name = content_length; value = decimal n } ∷ []);
}

abbrev pub set_own_length : HttpResponse → HttpResponse
set_own_length r = set_content_length (length r.content) r

abbrev pub no_body_length : HttpResponse → Bool
no_body_length r = r.tmp_content_length == 0 || r.tmp_content_length == no_length

-- The end of the chunks.
unfoldable pub last_chunk : HttpResponse → HttpResponse × Bytes × Bool
unfolding set_content_length
last_chunk r = (if no_body_length r then set_own_length r else r, [], true)

-- One chunk of the text: the size in front of the first line break, and what stands behind it.
unfoldable pub take_chunk :
    (HttpResponse → Bytes → HttpResponse × Bytes × Bool)
    → HttpResponse
    → Bytes
    → Option (Bytes × Bytes)
    → HttpResponse × Bytes × Bool
unfolding last_chunk strtol c_str set_content_length
take_chunk next r text none = (r, text, false)
take_chunk next r text (some (digits, behind)) =
    let size = to_int (strtol 16 (c_str digits)) in
    let n = pos_part size in
    let more =
      next (set_own_length (record r { content = r.content ++ take n behind }))
        (drop (n + 2) behind) in
    if not (is_pos size)
    then last_chunk r
    else (if leb (length digits + 2 + n + 2) (length text) then more else (r, text, false))

-- The loop, with fuel for the chunks.
unfoldable pub chunk_loop : ℕ → HttpResponse → Bytes → HttpResponse × Bytes × Bool
unfolding take_chunk find_text
chunk_loop zero r text = (r, text, false)
chunk_loop (suc fuel) r text =
    let next = λ (r' : HttpResponse) (text' : Bytes). chunk_loop fuel r' text' in
    take_chunk next r text (find_text crlf text)

-- The body, behind the header.
unfoldable pub decode_body : HttpResponse → Bytes → HttpResponse × Bytes × Bool
unfolding chunk_loop set_content_length
decode_body r text =
    let chunks = chunk_loop (length text + 1) r text in
    let r' = record r { content = r.content ++ text } in
    if r.is_chunked
    then chunks
    else (if r.tmp_content_length == 0
        then (set_own_length r', [], true)
        else (if r.tmp_content_length == no_length
            then (set_own_length r', [], false)
            else (r', [], leb r.tmp_content_length (length r'.content))))

abbrev pub is_status : ℕ → HttpResponse → Bool
is_status n r = pos_part r.status == n && neg_part r.status == 0

-- The test for a redirection, and the kind of body.
unfoldable pub on_header : HttpResponse → Bytes → HttpResponse × Bytes × Bool
unfolding decode_body erase_header get_header
on_header r text =
    let chunked = eqb_bytes (get_header transfer_encoding r.headers) (codes "chunked") in
    if (is_status 301 r || is_status 302 r)
      && not (is_empty (get_header (codes "Location") r.headers))
    then (r, text, true)
    else decode_body
        (record r { is_chunked = chunked; headers = erase_header transfer_encoding r.headers }) text

abbrev pub measured : ℕ → HttpResponse → HttpResponse
measured n r = record r {
  tmp_content_length =
      if has_header content_length r.headers then get_content_length r.headers else no_length;
  head_length = n + 4;
}

unfoldable pub on_parsed :
    Option HttpResponse → Bytes → Bytes → Bytes → Option (HttpResponse × Bytes × Bool)
unfolding on_header has_header get_content_length
on_parsed none text before behind = none
on_parsed (some r) text before behind =
    if is_status 204 r
    then some (r, text, false)
    else some (on_header (measured (length before) r) behind)

-- The header, where its end is found.
unfoldable pub on_head :
    HttpResponse → Bytes → Option (Bytes × Bytes) → Option (HttpResponse × Bytes × Bool)
unfolding on_parsed parse_response_header c_str
on_head r text none = some (r, text, false)
on_head r text (some (before, behind)) =
    on_parsed (parse_response_header (c_str text) r) text before behind

-- `incrementDecode`: the new state, what is left of the text, and the result.
unfoldable pub increment_decode : HttpResponse → Bytes → Option (HttpResponse × Bytes × Bool)
unfolding on_head find_text decode_body
increment_decode r text =
    let body = some (decode_body r text) in
    if r.head_length == 0 then on_head r text (find_text crlf_crlf text) else body

-- The result of `decode`; what incrementDecode returned is not looked at.
abbrev pub is_whole : ℕ → HttpResponse → Bool
is_whole n r =
    (no_body_length r && not r.is_chunked)
    || leb ((get_content_length r.headers + r.head_length) % 2 ^ 64) n

abbrev pub on_increment : ℕ → Option (HttpResponse × Bytes × Bool) → Option (HttpResponse × Bool)
on_increment n none = none
on_increment n (some (r, text, done)) = some (r, is_whole n r)

-- `string tmp(sBuffer, iLength)`: the first bytes of an array, NULs included; `none` is a read behind it.
unfoldable pub copy_bytes : Bytes → ℕ → Option Bytes
copy_bytes array zero = some []
copy_bytes [] (suc n) = none
copy_bytes (b ∷ array) (suc n) = elim (copy_bytes array n) [
  | none ↦ none
  | some copied ↦ some (b ∷ copied)
]

abbrev pub on_copied : ℕ → HttpResponse → Option Bytes → Option (HttpResponse × Bool)
on_copied n r none = none
on_copied n r (some copied) = on_increment n (increment_decode r copied)

-- Behind the search for the end of the header.
abbrev pub if_ahead :
    HttpResponse → Option (HttpResponse × Bool) → Option Bool → Option (HttpResponse × Bool)
if_ahead r decoded none = none
if_ahead r decoded (some ahead) = if ahead then decoded else some (r, false)

-- `decode` of `n` bytes of an array. `none` is also a read behind the array.
unfoldable pub decode : Bytes → ℕ → HttpResponse → Option (HttpResponse × Bool)
unfolding increment_decode get_content_length copy_bytes strstr
decode array n r = if_ahead r (on_copied n r (copy_bytes array n)) (strstr crlf_crlf array)
