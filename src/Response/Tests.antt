-- ===== src/Response/Tests.antt =====
-- A header of two fields, as TC_HttpResponse reads it.
use test_frame.Prelude.{◌≡◌, refl, none, [], ◌∷◌, codes}
use test_frame.Response.{
  Field, parse_header, header_loop, on_line, get_line, field_of, field_of_parts, get_header,
}

abbrev kept_open : Field
kept_open = record { name = codes "Date"; value = codes "-" }

abbrev closed : Field
closed = record { name = codes "Etag"; value = codes "x" }

found_in_any_case : get_header (codes "ETAG") (kept_open ∷ closed ∷ []) ≡ codes "x"
unfolding get_header
found_in_any_case = refl

unended_first_line : parse_header (codes "HTTP/1.1") ≡ none
unfolding parse_header header_loop on_line get_line field_of field_of_parts
unended_first_line = refl
