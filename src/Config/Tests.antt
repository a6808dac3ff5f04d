-- ===== src/Config/Tests.antt =====
-- Runs of loadConfig.cpp on a document of two entries.
use test_frame.Prelude.{◌≡◌, refl, some, [], ◌∷◌, map, codes}
use test_frame.Config.{ok, read_ip_port}
use test_frame.Config.Split.{strto_ushort, strtoul, signed_value, digits_value}
use test_frame.Config.Servers.{Written, IsWritten, render, server_of, read_ip_port-render}
use test_frame.Config.Load.{get_config, find, elements}
use test_frame.Config.Ranges.{IsRanged, get_config-IsRanged}
use test_frame.Config.Lookup.{first_entry, get_config-parse}
use test_frame.Config.Examples.{json, document, parsed, first, document_parsed}

abbrev local : Written
local = record { ip = codes "db"; port = codes "80" }

local-IsWritten : IsWritten local
local-IsWritten = record {
  some_ip = refl;
  some_port = refl;
  ip_colon = (refl, (refl, tt));
  ip_bar = (refl, (refl, tt));
  port_colon = (refl, (refl, tt));
  port_bar = (refl, (refl, tt));
}

read_ip_port-render_example :
    read_ip_port (render (local ∷ local ∷ [])) ≡ ok (map server_of (local ∷ local ∷ []))
read_ip_port-render_example =
    read_ip_port-render (local ∷ local ∷ []) (local-IsWritten, (local-IsWritten, tt))

port_is_read : strto_ushort (codes "3000") ≡ 3000
unfolding strto_ushort strtoul signed_value digits_value
port_is_read = refl

get_config-parse_example : get_config 7 parsed ≡ first_entry json 7 (elements json document 0 3)
get_config-parse_example = get_config-parse json [] document parsed 7 refl refl document_parsed

first_found : get_config 7 parsed ≡ some first
unfolding get_config find
first_found = refl

first-IsRanged : IsRanged first
first-IsRanged =
    get_config-IsRanged json [] document parsed 7 first refl refl document_parsed first_found
