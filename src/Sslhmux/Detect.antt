-- ===== src/Sslhmux/Detect.antt =====
-- internal/sslhmux/detect.go: the live backend of each protocol, read from the configuration of the
-- service behind it when a connection arrives.
pub mod Live
use hexplus_v.Base.{
  ℕ, ◌+◌, Bool, true, false, ◌&&◌, ◌||◌, not, Option, none, some, List, [], ◌∷◌, map, leb, ◌==◌,
  if◌then◌else◌, any,
}
use hexplus_v.Base.Int.{ℤ, pos, negsuc}
use mathlib.Core.Option
use hexplus_v.Sslhmux.Address.{parse_port, join_host_port, split_host_port}
use hexplus_v.Maps.{lookup, insert, remove}
use hexplus_v.Text.{Text, codes, text_eq, has_prefix, fields}
use hexplus_v.Text.Lines.{split, newline}
use hexplus_v.Text.Number.{format, atoi}

-- What `os.ReadFile` returns: the content, `os.ErrNotExist`, or another error.
pub data ReadResult : Type 0 where
  content : Text → ReadResult
  missing : ReadResult
  unreadable : ReadResult

-- `lastConf`
abbrev pub Cache : Type 0
Cache = List (Text × Text)

-- `readLive`
unfoldable pub read_live : Text → ReadResult → Cache → Cache × Option Text
read_live path (content c) cache = (insert path c cache, some c)
read_live path missing cache = (remove path cache, none)
read_live path unreadable cache = (cache, lookup path cache)

abbrev lower : ℕ → ℕ
lower c = if leb b'A' c && leb c b'Z' then c + 32 else c

-- `strings.EqualFold(s, "Port")`
unfoldable pub is_port_word : Text → Bool
is_port_word s = text_eq (map lower s) (codes "port")

abbrev pub loopback_host : Text
loopback_host = codes "127.0.0.1"

-- A line of sshd_config that sets a port, by its words.
unfoldable pub sshd_port : List Text → Option ℕ
sshd_port (w ∷ v ∷ _) = if is_port_word w then parse_port v else none
sshd_port _ = none

-- The first line that sets a port.
unfoldable pub first_port : (List Text → Option ℕ) → List Text → Option ℕ
first_port read [] = none
first_port read (l ∷ ls) = elim (read (fields l)) [ some n ↦ some n | none ↦ first_port read ls ]

abbrev default_port : ℕ → Option ℕ → ℕ
default_port d none = d
default_port d (some n) = n

abbrev pub sshd_config_path : Text
sshd_config_path = codes "/etc/ssh/sshd_config"

abbrev pub squid_conf_path : Text
squid_conf_path = codes "/etc/squid/squid.conf"

-- `DetectSSH`, on what was read
unfoldable pub ssh_backend : Option Text → Text
ssh_backend none = join_host_port loopback_host 22
ssh_backend (some c) =
    join_host_port loopback_host (default_port 22 (first_port sshd_port (split newline c)))

-- `DetectSSL`
unfoldable pub ssl_backend : ℤ → Text
ssl_backend (negsuc n) = []
ssl_backend (pos n) = if n == 0 then [] else join_host_port loopback_host n

-- A line of server.conf that sets a port, by its words.
unfoldable pub conf_port : List Text → Option ℕ
conf_port (w ∷ v ∷ _) = if text_eq w (codes "port") then parse_port v else none
conf_port _ = none

-- The last line that sets a port.
unfoldable pub last_port : ℕ → List Text → ℕ
last_port port [] = port
last_port port (l ∷ ls) = last_port (default_port port (conf_port (fields l))) ls

-- The part before the first `=` of an option.
option_name : Text → Text
option_name [] = []
option_name (c ∷ s) = if c == b'=' then [] else c ∷ option_name s

-- `reverseProxyOnly`
unfoldable pub reverse_proxy_only : List Text → Bool
unfolding option_name
reverse_proxy_only opts =
    any
      (λ o.
        let n = option_name o in
        text_eq n (codes "intercept")
        || text_eq n (codes "tproxy")
        || text_eq n (codes "transparent")
        || text_eq n (codes "accel"))
      opts

-- What `net.ParseIP`, `IsLoopback` and `IsUnspecified` say of an address.
pub data IpClass : Type 0 where
  loopback unspecified ordinary : IpClass

-- What the daemon sees of its host at one moment. `ip_class` stands for the address parser of Go's
-- library; `tunnel_config` is the port that `ssltunnel.Load` returns, `none` for its error.
pub record Host : Type 0 where
  pub read_conf : Text → ReadResult
  pub tunnel_config : Option ℤ
  pub ip_class : Text → Option IpClass

-- What is kept between connections: `lastConf` and `lastTunnelPort`.
pub record Memory : Type 0 where
  pub last_conf : Cache
  pub last_tunnel_port : ℤ

-- The loopback address in place of a wildcard.
dialled_host : (Text → Option IpClass) → Text → Text
dialled_host ip_class [] = loopback_host
dialled_host ip_class (c ∷ h) = elim (ip_class (c ∷ h)) [
  | none ↦ c ∷ h
  | some k ↦ elim k [ unspecified ↦ loopback_host | loopback ↦ c ∷ h | ordinary ↦ c ∷ h ]
]

-- The address of an `http_port` value.
http_address : (Text → Option IpClass) → Text → Option Text
unfolding dialled_host split_host_port
http_address ip_class v =
    let hp : Text × Text = elim (split_host_port v) [ none ↦ (loopback_host, v) | some hp ↦ hp ] in
    Option.map (λ n. join_host_port (dialled_host ip_class hp.0) n) (parse_port hp.1)

-- A line of squid.conf, by its words.
unfoldable pub squid_line : (Text → Option IpClass) → List Text → Option Text
unfolding http_address
squid_line ip_class (w ∷ v ∷ opts) =
    if not (text_eq w (codes "http_port")) || reverse_proxy_only opts
    then none
    else http_address ip_class v
squid_line ip_class _ = none

unfoldable pub first_http : (Text → Option IpClass) → List Text → Text
unfolding squid_line
first_http ip_class [] = []
first_http ip_class (l ∷ ls) = elim (squid_line ip_class (fields l)) [
  | some a ↦ a
  | none ↦ first_http ip_class ls
]

unfoldable pub http_backend : (Text → Option IpClass) → Option Text → Text
unfolding first_http
http_backend ip_class none = []
http_backend ip_class (some c) = first_http ip_class (split newline c)

-- A read of the file at a path, with the memory.
unfoldable pub read_file : Host → Text → Memory → Memory × Option Text
unfolding read_live
read_file host path m =
    let (conf, o) = read_live path (host.read_conf path) m.last_conf in
    (record m { last_conf = conf }, o)

-- `DetectSSH`
unfoldable pub detect_ssh : Host → Memory → Memory × Text
unfolding read_file ssh_backend
detect_ssh host m = let (m', o) = read_file host sshd_config_path m in (m', ssh_backend o)

-- `DetectHTTP`
unfoldable pub detect_http : Host → Memory → Memory × Text
unfolding read_file http_backend
detect_http host m =
    let (m', o) = read_file host squid_conf_path m in (m', http_backend host.ip_class o)

-- `DetectSSL` with `sslTunnelPort`
unfoldable pub detect_ssl : Host → Memory → Memory × Text
unfolding ssl_backend
detect_ssl host m = elim host.tunnel_config [
  | none ↦ (m, ssl_backend m.last_tunnel_port)
  | some port ↦ (record m { last_tunnel_port = port }, ssl_backend port)
]

abbrev pub openvpn_conf_paths : List Text
openvpn_conf_paths = codes "/etc/openvpn/server.conf" ∷ codes "/etc/openvpn/server/server.conf" ∷ []

-- The loop of `DetectOpenVPN`: the first configuration that can be read.
unfoldable pub openvpn_from : Host → List Text → Memory → Memory × ℕ
unfolding read_file last_port
openvpn_from host [] m = (m, 1194)
openvpn_from host (path ∷ paths) m =
    let (m', o) = read_file host path m in
    elim o [ none ↦ openvpn_from host paths m' | some c ↦ (m', last_port 1194 (split newline c)) ]

-- `DetectOpenVPN`
unfoldable pub detect_openvpn : Host → Memory → Memory × Text
unfolding openvpn_from
detect_openvpn host m =
    let (m', port) = openvpn_from host openvpn_conf_paths m in
    (m', join_host_port loopback_host port)

-- `pointsAtSelf`
unfoldable pub points_at_self : Host → Text → ℕ → Bool
unfolding split_host_port
points_at_self host target port = elim (split_host_port target) [
  | none ↦ false
  | some (h, port_str) ↦
      if not (text_eq port_str (format port))
      then false
      else text_eq h (codes "localhost") || elim (host.ip_class h) [
        | none ↦ false
        | some k ↦ elim k [ loopback ↦ true | unspecified ↦ true | ordinary ↦ false ]
      ]
]
