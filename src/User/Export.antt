-- ===== src/User/Export.antt =====
-- internal/user/ovpn.go and system.go: the checks of names and passwords, the endpoint of a client
-- file and its text.
use hexplus_v.Base.{
  ℕ, zero, suc, ◌+◌, Bool, false, ◌&&◌, ◌||◌, not, Option, none, some, [], ◌∷◌, ◌++◌, map, ltb, leb,
  ◌==◌, if◌then◌else◌, length, any,
}
use hexplus_v.Base.Int.{ℤ, pos, negsuc}
use hexplus_v.Maps.{lookup}
use hexplus_v.Pki.{Listen, read_server_listen, render_client_common}
use hexplus_v.User.Store.{
  M, err, ◌>>=◌, ◌>>◌, return, guard, from, empty_password, long_password, broken_password,
  bad_endpoint, not_exported,
}
use hexplus_v.Text.{Text, codes, text_eq, trim_right}
use hexplus_v.Text.Lines.{newline}

-- Which tools of the host work, what they return, and the files that are only read.
pub record Tools : Type 0 where
  pub root : Bool
  pub getent : Bool
  pub useradd : Bool
  pub userdel : Bool
  pub chpasswd : Bool
  pub chage : Bool
  pub mkdir : Bool
  pub cert_written : Bool
  pub key_written : Bool
  pub cert_removed : Bool
  pub key_removed : Bool
  pub saved : Bool
  pub ca_loads : Bool
  pub signed : Option (Text × Text)
  pub server_conf : Option Text
  pub ca : Option Text
  pub ta_key : Option Text

abbrev is_letter : ℕ → Bool
is_letter c = (leb b'a' c && leb c b'z') || (leb b'A' c && leb c b'Z')

abbrev is_name_char : ℕ → Bool
is_name_char c = is_letter c || (leb b'0' c && leb c b'9') || c == b'_' || c == b'-'

-- `nameRE`
unfoldable pub matches_name : Text → Bool
matches_name [] = false
matches_name (c ∷ s) = is_letter c && not (any (λ d. not (is_name_char d)) s)

-- `ValidateName` returns no error.
unfoldable pub is_valid_name : Text → Bool
unfolding matches_name
is_valid_name name = not (ltb (length name) 2 || ltb 32 (length name)) && matches_name name

-- `MaxVPNPasswordLen`
abbrev pub max_vpn_password_len : ℕ
max_vpn_password_len = 127

abbrev is_break : ℕ → Bool
is_break c = c == b'\r' || c == b'\n' || c == 0

-- `CheckVPNPassword`, a password as its bytes
unfoldable pub check_vpn_password : Text → M (Unit {0})
unfolding guard
check_vpn_password [] = guard false empty_password
check_vpn_password (c ∷ s) =
    guard (leb (length (c ∷ s)) max_vpn_password_len) long_password
    >> guard (not (any is_break (c ∷ s))) broken_password

-- `OVPNInput`
pub record OvpnInput : Type 0 where
  pub username : Text
  pub remote_host : Text
  pub remote_port : ℤ
  pub proto : Text

-- `strings.ToLower`, on ASCII and the code points that become ASCII
unfoldable pub to_lower : ℕ → ℕ
to_lower c =
    if leb b'A' c && leb c b'Z'
    then c + 32
    else if c == 0x212a
    then b'k'
    else if c == 0x130
    then b'i'
    else c

abbrev is_known_proto : Text → Bool
is_known_proto proto =
    text_eq proto [] || text_eq proto (codes "udp") || text_eq proto (codes "tcp")

abbrev port_or : ℕ → ℕ → ℕ
port_or zero port = port
port_or (suc n) port = suc n

abbrev proto_or : Text → Text → Text
proto_or [] proto = proto
proto_or (c ∷ s) proto = c ∷ s

-- The endpoint, the unset parts from the server's configuration.
unfoldable pub filled : OvpnInput → ℕ → Text → Option Listen → M OvpnInput
filled i zero proto none = λ h. (h, err bad_endpoint)
filled i (suc n) [] none = λ h. (h, err bad_endpoint)
filled i (suc n) (c ∷ s) l = return (record i { remote_port = pos (suc n); proto = c ∷ s })
filled i port proto (some l) =
    return (record i { remote_port = pos (port_or port l.port); proto = proto_or proto l.proto })

-- The port is checked behind the protocol.
unfoldable pub endpoint : OvpnInput → ℤ → Text → Option Listen → M OvpnInput
unfolding filled
endpoint i (negsuc n) proto l = λ h. (h, err bad_endpoint)
endpoint i (pos n) proto l = guard (leb n 65535) bad_endpoint >> filled i n proto l

-- `ResolveEndpoint`, the content of the configuration given
unfoldable pub resolve_endpoint : OvpnInput → Option Text → M OvpnInput
unfolding endpoint to_lower
resolve_endpoint i conf =
    guard (is_known_proto (map to_lower i.proto)) bad_endpoint
    >> endpoint i i.remote_port (map to_lower i.proto) (read_server_listen conf)

-- `wrap`
unfoldable pub wrap : Text → Text → Text
wrap tag body =
    b'<' ∷ tag
    ++ b'>' ∷ newline ∷ trim_right (λ c. c == newline) body
    ++ newline ∷ b'<' ∷ b'/' ∷ tag
    ++ b'>' ∷ newline ∷ []

-- A port that is set and not negative.
abbrev pub port_of : ℤ → ℕ
port_of (pos n) = n
port_of (negsuc n) = 0

-- `BuildOVPN`
unfoldable pub build_ovpn : Tools → OvpnInput → M Text
unfolding from wrap
build_ovpn t i h =
    (do
      header ←
          from
            (render_client_common (record {
              remote_host = i.remote_host;
              remote_port = port_of i.remote_port;
              proto = i.proto;
            }))
            not_exported
      ca ← from t.ca not_exported
      cert ← from (lookup i.username h.certs) not_exported
      key ← from (lookup i.username h.keys) not_exported
      ta ← from t.ta_key not_exported
      return (
          header
          ++ newline ∷ wrap (codes "ca") ca
          ++ wrap (codes "cert") cert
          ++ wrap (codes "key") key
          ++ wrap (codes "tls-auth") ta))
      h
