-- ===== src/Response/Examples.antt =====
-- Two headers of responses as TC_HttpResponse reads them: one with a length, one in chunks.
use test_frame.Prelude.{
  ℕ, ◌≡◌, refl, false, [], ◌∷◌, List, Bytes, codes, All, arith, Bool, ◌||◌, ◌==◌,
}
use test_frame.Config.Split.{is_sep, cut, strtoul, signed_value, digits_value}
use test_frame.Text.{strtol, signed_in, digits_in, skip_prefix}
use test_frame.Response.{
  Field, get_header, trim, trim_left, trim_right, trim_left_bytes, trim_right_bytes,
}
use test_frame.Response.Fields.{IsField, IsInLine, written}
use test_frame.Response.Whole.{IsHead, read_head}
use test_frame.Response.Decode.{set_status, get_content_length, is_status}
use test_frame.Response.Early.{redirects}

abbrev pub any_of : (ℕ → Bool) → Bytes → Bool
any_of test [] = false
any_of test (c ∷ text) = test c || any_of test text

pub none_of :
    (test : ℕ → Bool) (text : Bytes) → any_of test text ≡ false → All (λ c. test c ≡ false) text
none_of test [] h = tt
none_of test (c ∷ text) h =
    let here : test c ≡ false = ground arith in
    let later : any_of test text ≡ false = ground arith in (here, none_of test text later)

in_line :
    (text : Bytes)
    → any_of (λ c. c == 13) text ≡ false
    → any_of (λ c. c == 10) text ≡ false
    → All IsInLine text
in_line [] r n = tt
in_line (c ∷ text) r n =
    let no_return : (c == 13) ≡ false = ground arith in
    let no_newline : (c == 10) ≡ false = ground arith in
    ((no_return, no_newline), in_line text (ground arith) (ground arith))

abbrev pub first : Bytes
first = codes "HTTP/1.1 200 OK"

abbrev pub version : Bytes
version = codes "HTTP/1.1"

abbrev pub reason : Bytes
reason = codes "200 OK"

abbrev pub two_bytes : Field
two_bytes = record { name = codes "Content-Length"; value = codes "2" }

abbrev pub closing : Field
closing = record { name = codes "Connection"; value = codes "close" }

abbrev pub in_chunks : Field
in_chunks = record { name = codes "Transfer-Encoding"; value = codes "chunked" }

abbrev pub sized_fields : List Field
sized_fields = two_bytes ∷ closing ∷ []

abbrev pub chunked_fields : List Field
chunked_fields = in_chunks ∷ []

two_bytes-IsField : IsField two_bytes
unfolding trim trim_left trim_right trim_left_bytes trim_right_bytes
two_bytes-IsField = record {
  one_line = in_line (written two_bytes) refl refl;
  no_colon = none_of (is_sep (58 ∷ [])) two_bytes.name refl;
  trimmed_name = refl;
  trimmed_value = refl;
  no_first_line = refl;
}

closing-IsField : IsField closing
unfolding trim trim_left trim_right trim_left_bytes trim_right_bytes
closing-IsField = record {
  one_line = in_line (written closing) refl refl;
  no_colon = none_of (is_sep (58 ∷ [])) closing.name refl;
  trimmed_name = refl;
  trimmed_value = refl;
  no_first_line = refl;
}

in_chunks-IsField : IsField in_chunks
unfolding trim trim_left trim_right trim_left_bytes trim_right_bytes
in_chunks-IsField = record {
  one_line = in_line (written in_chunks) refl refl;
  no_colon = none_of (is_sep (58 ∷ [])) in_chunks.name refl;
  trimmed_name = refl;
  trimmed_value = refl;
  no_first_line = refl;
}

pub sized_fields-IsHead : IsHead first version reason sized_fields
unfolding trim trim_left trim_right trim_left_bytes trim_right_bytes cut
sized_fields-IsHead = record {
  one_line = in_line first refl refl;
  no_nul = none_of (λ c. c == 0) first refl;
  trimmed = refl;
  blank = refl;
  are_fields = (two_bytes-IsField, (closing-IsField, tt));
  are_texts = (
    none_of (λ c. c == 0) (written two_bytes) refl,
    (none_of (λ c. c == 0) (written closing) refl, tt),
  );
}

pub chunked_fields-IsHead : IsHead first version reason chunked_fields
unfolding trim trim_left trim_right trim_left_bytes trim_right_bytes cut
chunked_fields-IsHead = record {
  one_line = in_line first refl refl;
  no_nul = none_of (λ c. c == 0) first refl;
  trimmed = refl;
  blank = refl;
  are_fields = (in_chunks-IsField, tt);
  are_texts = (none_of (λ c. c == 0) (written in_chunks) refl, tt);
}

pub with_content :
    (fields : List Field) → is_status 204 (read_head first version reason fields) ≡ false
unfolding trim trim_left trim_right trim_left_bytes trim_right_bytes cut set_status strtol signed_in
    digits_in skip_prefix
with_content fields = refl

pub stays : (fields : List Field) → redirects (read_head first version reason fields) ≡ false
unfolding trim trim_left trim_right trim_left_bytes trim_right_bytes cut set_status strtol signed_in
    digits_in skip_prefix
stays fields = refl

pub sized_length : get_content_length sized_fields ≡ 2
unfolding get_content_length get_header strtoul signed_value digits_value
sized_length = refl
