-- ===== src/Proxy.antt =====
-- internal/proxy/config.go and handler.go: the settings of a payload proxy and one connection of a
-- client. What the client sends first, whether the dial and the write succeed, and the JSON of the
-- settings are arguments; the bytes bridged afterwards are not looked at.
pub mod Header
pub mod Allowlist
pub mod Printed
use hexplus_v.Base.{
  ℕ, ◌+◌, Bool, true, false, ◌&&◌, ◌||◌, not, Option, none, some, List, [], ◌∷◌, ◌++◌, map, ltb,
  leb, ◌==◌, if◌then◌else◌, length, any,
}
use hexplus_v.Base.Int.{ℤ, pos, negsuc}
use hexplus_v.Base.Order.{sort}
use hexplus_v.Proxy.Header.{crlf, expand_escapes, find_header}
use hexplus_v.Sslhmux.Address.{split_host_port}
use hexplus_v.Text.{Text, codes, text_eq, text_lt, text_mem}

pub record Config : Type 0 where
  pub name : Text
  pub port : ℤ
  pub default_host : Text
  pub status_code : Text
  pub status_msg : Text
  pub verbose : Bool

abbrev is_letter : ℕ → Bool
is_letter c = (leb b'a' c && leb c b'z') || (leb b'A' c && leb c b'Z')

abbrev is_name_char : ℕ → Bool
is_name_char c = is_letter c || (leb b'0' c && leb c b'9') || c == b'_' || c == b'-'

-- `nameRE`
unfoldable pub matches_name : Text → Bool
matches_name [] = false
matches_name (c ∷ s) = is_letter c && not (any (λ d. not (is_name_char d)) s)

abbrev pub reserved_names : List Text
reserved_names = codes "openvpn" ∷ codes "squid" ∷ codes "dropbear" ∷ []

-- What `ValidateName` returns.
pub data NameError : Type 0 where
  valid_name : NameError
  bad_length : NameError
  bad_chars : NameError
  reserved : NameError

-- `ValidateName`
unfoldable pub validate_name : Text → NameError
unfolding matches_name text_mem
validate_name name =
    if ltb (length name) 2 || ltb 32 (length name)
    then bad_length
    else if not (matches_name name)
    then bad_chars
    else if text_mem name reserved_names
    then reserved
    else valid_name

-- `DB`
abbrev pub Db : Type 0
Db = List (Text × Config)

abbrev configs : Db → List Config
configs [] = []
configs ((k, c) ∷ db) = c ∷ configs db

abbrev pub name_lt : Config → Config → Bool
name_lt c d = text_lt c.name d.name

-- `DB.All`
unfoldable pub all : Db → List Config
all db = sort name_lt (configs db)

-- `Config.UnitName`
unfoldable pub unit_name : Config → Text
unit_name c = codes "hexplus-proxy-" ++ c.name ++ codes ".service"

pub record Handler : Type 0 where
  pub cfg : Config
  pub response_bytes : Text

-- What `NewHandler` returns.
pub data NewHandler : Type 0 where
  invalid_port : NewHandler
  no_default_host : NewHandler
  handler : Handler → NewHandler

unfoldable pub or_default : Text → Text → Text
or_default [] t = t
or_default (c ∷ s) t = c ∷ s

-- The configuration with its defaults.
unfoldable pub with_defaults : Config → Config
unfolding or_default
with_defaults cfg = record cfg {
  status_code = or_default cfg.status_code (codes "200");
  status_msg = or_default cfg.status_msg (codes "Connection established");
}

unfoldable pub response_of : Config → Text
unfolding expand_escapes
response_of cfg =
    codes "HTTP/1.1 "
    ++ cfg.status_code
    ++ codes " "
    ++ expand_escapes cfg.status_msg
    ++ crlf
    ++ crlf

-- The rest of `NewHandler`, the port and the default host given.
unfoldable pub handler_for : ℤ → Text → Config → NewHandler
unfolding with_defaults response_of
handler_for (negsuc n) host cfg = invalid_port
handler_for (pos n) [] cfg = if n == 0 || ltb 65535 n then invalid_port else no_default_host
handler_for (pos n) (c ∷ host) cfg =
    if n == 0 || ltb 65535 n
    then invalid_port
    else handler
        (record { cfg = with_defaults cfg; response_bytes = response_of (with_defaults cfg) })

-- `NewHandler`
unfoldable pub new_handler : Config → NewHandler
unfolding handler_for
new_handler cfg = handler_for cfg.port cfg.default_host cfg

-- `unicode.ToLower`, on the code points whose image is ASCII. It keeps the others outside ASCII.
unfoldable pub to_lower : ℕ → ℕ
to_lower c =
    if leb b'A' c && leb c b'Z'
    then c + 32
    else if c == 0x212a
    then b'k'
    else if c == 0x130
    then b'i'
    else c

-- `allowedHosts`
abbrev pub allowed_hosts : List Text
allowed_hosts = codes "127.0.0.1" ∷ codes "0.0.0.0" ∷ codes "localhost" ∷ []

-- The host half of an address, all of it where it does not split.
unfoldable pub host_half : Text → Text
unfolding split_host_port
host_half host_port = elim (split_host_port host_port) [ none ↦ host_port | some (h, p) ↦ h ]

unfoldable pub is_allowed : Text → Bool
unfolding host_half to_lower text_mem
is_allowed host_port = text_mem (map to_lower (host_half host_port)) allowed_hosts

-- What one connection does: whether a second packet is dropped, the address that is dialled, what is
-- sent to the client, and whether bytes are bridged.
pub record Outcome : Type 0 where
  pub drained : Bool
  pub dialled : Option Text
  pub sent : Option Text
  pub bridged : Bool

abbrev silent : Outcome
silent = record { drained = false; dialled = none; sent = none; bridged = false }

abbrev pub forbidden : Text
forbidden = codes "HTTP/1.1 403 Forbidden!" ++ crlf ++ crlf

abbrev pub bad_gateway : Text
bad_gateway = codes "HTTP/1.1 502 Bad Gateway" ++ crlf ++ crlf

-- From the dial on.
unfoldable pub dial_upstream : Handler → (Text → Bool) → Bool → Bool → Text → Outcome
dial_upstream h dials writes drained target =
    if dials target
    then record {
      drained = drained;
      dialled = some target;
      sent = some h.response_bytes;
      bridged = writes;
    }
    else record {
      drained = drained;
      dialled = some target;
      sent = some bad_gateway;
      bridged = false;
    }

-- The target that the client names, if it names one, and the dial.
unfoldable pub connect : Handler → (Text → Bool) → Bool → Bool → Text → Outcome
unfolding dial_upstream is_allowed
connect h dials writes drained [] = dial_upstream h dials writes drained h.cfg.default_host
connect h dials writes drained (c ∷ named) =
    if is_allowed (c ∷ named)
    then dial_upstream h dials writes drained (c ∷ named)
    else record { drained = drained; dialled = none; sent = some forbidden; bridged = false }

abbrev is_present : Text → Bool
is_present [] = false
is_present (c ∷ s) = true

-- `handleConn`, the first read given: `none` for an error
unfoldable pub handle_conn : Handler → (Text → Bool) → Bool → Option Text → Outcome
unfolding connect find_header
handle_conn h dials writes none = silent
handle_conn h dials writes (some []) = silent
handle_conn h dials writes (some (c ∷ head)) =
    connect h dials writes (is_present (find_header (c ∷ head) (codes "X-Split")))
      (find_header (c ∷ head) (codes "X-Real-Host"))
