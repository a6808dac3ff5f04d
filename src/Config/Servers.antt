-- ===== src/Config/Servers.antt =====
-- loadConfig.cpp: the text "ip:port|ip:port|..." of the field `ip_port`.
use test_frame.Prelude.{
  ℕ, ◌≡◌, refl, false, List, [], ◌∷◌, ◌++◌, map, is_empty, All, All-append, Bytes,
}
use test_frame.Config.{
  TcpInfo, ok, out_of_bounds, first_two, read_servers, read_ip_port, colon, bar,
}
use test_frame.Config.Split.{is_sep, sepstr, strto_ushort}
use test_frame.Config.Pieces.{IsFree, sepstr-free, sepstr-append}

-- An address as it is written, and the text of a list of them.
pub record Written : Type 0 where
  pub ip : Bytes
  pub port : Bytes

abbrev pub render : List Written → Bytes
render [] = []
render (w ∷ ws) = (w.ip ++ 58 ∷ w.port) ++ 124 ∷ render ws

abbrev pub server_of : Written → TcpInfo
server_of w = record { ip = w.ip; port = strto_ushort w.port }

-- Both parts are there, and hold neither a colon nor a bar.
pub record IsWritten (w : Written) : Type 0 where
  pub some_ip : is_empty w.ip ≡ false
  pub some_port : is_empty w.port ≡ false
  pub ip_colon : IsFree colon w.ip
  pub ip_bar : IsFree bar w.ip
  pub port_colon : IsFree colon w.port
  pub port_bar : IsFree bar w.port

parts : (w : Written) → IsWritten w → sepstr colon (w.ip ++ 58 ∷ w.port) ≡ w.ip ∷ w.port ∷ []
parts w v = rw (
  sepstr-append colon w.ip 58 w.port v.ip_colon refl,
  sepstr-free colon w.port v.port_colon,
  v.some_ip,
  v.some_port,
)

is_empty-append : (a : Bytes) (c : ℕ) (b : Bytes) → is_empty (a ++ c ∷ b) ≡ false
is_empty-append [] c b = refl
is_empty-append (x ∷ a) c b = refl

pieces :
    (w : Written) (ws : List Written)
    → IsWritten w
    → sepstr bar (render (w ∷ ws)) ≡ (w.ip ++ 58 ∷ w.port) ∷ sepstr bar (render ws)
pieces w ws v = rw (
  sepstr-append bar (w.ip ++ 58 ∷ w.port) 124 (render ws)
      (All-append (λ c. is_sep bar c ≡ false) w.ip (58 ∷ w.port) v.ip_bar (refl, v.port_bar)) refl,
  is_empty-append w.ip 58 w.port,
)

-- A list of addresses, each written as its ip, a colon, its port and a bar, is read back in order, with
-- the ports converted as unsigned shorts, where no part is empty or holds a colon or a bar.
pub read_ip_port-render :
    (ws : List Written) → All IsWritten ws → read_ip_port (render ws) ≡ ok (map server_of ws)
unfolding read_ip_port read_servers first_two
read_ip_port-render [] v = refl
read_ip_port-render (w ∷ ws) v =
    rw (pieces w ws v.0, parts w v.0, read_ip_port-render ws v.1, v.0.some_ip, v.0.some_port)

-- A piece without a colon, such as a server without a port, makes the program read past its parts.
pub no_colon-out_of_bounds :
    (text rest : Bytes)
    → is_empty text ≡ false
    → IsFree colon text
    → IsFree bar text
    → read_ip_port (text ++ 124 ∷ rest) ≡ out_of_bounds
unfolding read_ip_port read_servers first_two
no_colon-out_of_bounds text rest e c b =
    rw (sepstr-append bar text 124 rest b refl, e, sepstr-free colon text c, e)
