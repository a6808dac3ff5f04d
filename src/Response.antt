-- ===== src/Response.antt =====
-- tcinclude/tc_common.cpp and tcinclude/tc_http.cpp, the part by which TC_HttpResponse reads the fields
-- of a header: TC_Common::trim, TC_Http::getLine, parseHeader and getHeader. A text is a C string up to
-- its NUL.
pub mod Fields
pub mod Decode
pub mod Bounds
pub mod Ends
pub mod Chunks
pub mod Lengths
pub mod Measured
pub mod Fuel
pub mod Overload
pub mod Early
pub mod Whole
pub mod Sized
pub mod Chunked
pub mod Examples
mod Tests
mod Runs
use test_frame.Prelude.{
  ℕ, zero, suc, ◌+◌, ◌-◌, ◌==◌, ltb, leb, if◌then◌else◌, Bool, true, false, ◌&&◌, ◌||◌, Option,
  none, some, List, [], ◌∷◌, ◌++◌, map, is_empty, length, take, drop, Bytes, codes, eqb_bytes,
  starts_with,
}
use test_frame.Config.Split.{is_sep, cut}

-- `trimleft` and `trimright` where `bChar` holds: the bytes at one end that are among those of `s`.
unfoldable pub trim_left_bytes : Bytes → Bytes → Bytes
trim_left_bytes s [] = []
trim_left_bytes s (c ∷ text) =
    let rest = trim_left_bytes s text in if is_sep s c then rest else c ∷ text

unfoldable pub trim_right_bytes : Bytes → Bytes → Bytes
trim_right_bytes s [] = []
trim_right_bytes s (c ∷ text) =
    let rest = trim_right_bytes s text in if is_empty rest && is_sep s c then [] else c ∷ rest

-- The same where it does not hold: the text `s` once.
unfoldable pub trim_left_word : Bytes → Bytes → Bytes
trim_left_word s text =
    if is_empty text || ltb (length text) (length s)
    then text
    else (if starts_with s text then drop (length s) text else text)

unfoldable pub trim_right_word : Bytes → Bytes → Bytes
trim_right_word s text =
    if is_empty text || ltb (length text) (length s)
    then text
    else (if eqb_bytes (drop (length text - length s) text) s
        then take (length text - length s) text
        else text)

unfoldable pub trim_left : Bytes → Bytes → Bool → Bytes
unfolding trim_left_bytes trim_left_word
trim_left text s true = trim_left_bytes s text
trim_left text s false = trim_left_word s text

unfoldable pub trim_right : Bytes → Bytes → Bool → Bytes
unfolding trim_right_bytes trim_right_word
trim_right text s true = trim_right_bytes s text
trim_right text s false = trim_right_word s text

unfoldable pub trim : Bytes → Bytes → Bool → Bytes
unfolding trim_left trim_right
trim text s by_byte = trim_right (trim_left text s by_byte) s by_byte

-- `getLine`: the line, and where the pointer stands after it; `none` is behind the NUL.
unfoldable pub get_line : Bytes → Bytes × Option Bytes
get_line [] = ([], none)
get_line (c ∷ text) =
    let rest = get_line text in
    if c == 13
    then ([], elim text [ [] ↦ none | d ∷ behind ↦ some behind ])
    else (if c == 10 then ([], some text) else (c ∷ rest.0, rest.1))

abbrev pub upper_byte : ℕ → ℕ
upper_byte c = if leb 97 c && leb c 122 then c - 32 else c

abbrev pub upper : Bytes → Bytes
upper text = map upper_byte text

-- The lines that `parseHeader` passes over, by `strncasecmp`.
abbrev pub is_first_line : Bytes → Bool
is_first_line line =
    starts_with (codes "GET ") (upper line)
    || (starts_with (codes "POST ") (upper line)
        || (starts_with (codes "OPTIONS ") (upper line)
            || starts_with (codes "HTTP/") (upper line)))

pub record Field : Type 0 where
  pub name : Bytes
  pub value : Bytes

abbrev pub space : Bytes
space = 32 ∷ []

-- The field of a line, if there is a colon in it.
unfoldable pub field_of_parts : Bytes × Option Bytes → List Field
unfolding trim
field_of_parts (before, none) = []
field_of_parts (before, some behind) =
    record { name = trim before space true; value = trim behind space true } ∷ []

unfoldable pub field_of : Bytes → List Field
unfolding field_of_parts cut
field_of line = field_of_parts (cut (58 ∷ []) line)

-- A round of the loop of `parseHeader`, with the rounds that follow; `none` is a read behind the NUL.
unfoldable pub on_line : (Bytes → Option (List Field)) → Bytes × Option Bytes → Option (List Field)
unfolding field_of
on_line next (line, none) =
    if is_empty line then some [] else (if is_first_line line then none else some (field_of line))
on_line next (line, some behind) =
    let rest = next behind in
    if is_empty line
    then some []
    else (if is_first_line line
        then rest
        else (if is_empty behind
            then some (field_of line)
            else elim rest [ none ↦ none | some fields ↦ some (field_of line ++ fields) ]))

-- The loop, with fuel for the lines.
unfoldable pub header_loop : ℕ → Bytes → Option (List Field)
unfolding get_line on_line
header_loop zero text = some []
header_loop (suc fuel) text =
    let next = λ (behind : Bytes). header_loop fuel behind in on_line next (get_line text)

unfoldable pub parse_header : Bytes → Option (List Field)
unfolding header_loop
parse_header text = header_loop (length text + 1) text

-- `getHeader`: the first field of that name, whatever the case; the empty text if there is none.
unfoldable pub get_header : Bytes → List Field → Bytes
get_header name [] = []
get_header name (f ∷ fields) =
    let rest = get_header name fields in
    if eqb_bytes (upper f.name) (upper name) then f.value else rest
