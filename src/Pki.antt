-- ===== src/Pki.antt =====
-- internal/pki/serverconf.go and clientconf.go: the OpenVPN configurations that are written, and what
-- is read back and changed in them. A file is its content.
pub mod Lines
pub mod Listening
use hexplus_v.Base.{
  ℕ, ◌+◌, ◌-◌, Bool, false, ◌&&◌, ◌||◌, not, Option, none, some, List, [], ◌∷◌, ◌++◌, ltb, ◌==◌,
  if◌then◌else◌, keep, any,
}
use hexplus_v.Base.Int.{ℤ, pos, negsuc}
use hexplus_v.Maps.{lookup}
use hexplus_v.Pki.Lines.{
  auth_script_path, auth_lines, crypto_lines, dns_table, exit_notify, key_lines, option_lines,
}
use hexplus_v.Text.{Text, codes, fields, has_prefix, text_eq, trim_right, trim_space}
use hexplus_v.Text.Lines.{join, newline, split}
use hexplus_v.Text.Number.{atoi, format}

-- The protocol and the port that a configuration names.
pub record Listen : Type 0 where
  pub proto : Text
  pub port : ℕ

-- The port of a parsed number, the old one where it is out of range.
abbrev port_or : ℕ → Option ℤ → ℕ
port_or old none = old
port_or old (some (negsuc n)) = old
port_or old (some (pos n)) = if ltb 0 n && ltb n 65536 then n else old

-- The words of a line in the loop of `ReadServerListen`.
unfoldable pub listen_words : List Text → Listen → Listen
unfolding atoi
listen_words (word ∷ value ∷ rest) l =
    if text_eq word (codes "port")
    then record l { port = port_or l.port (atoi value) }
    else if text_eq word (codes "proto")
    then record l { proto = if has_prefix (codes "tcp") value then codes "tcp" else codes "udp" }
    else l
listen_words _ l = l

unfoldable pub listen_lines : List Text → Listen → Listen
unfolding listen_words fields
listen_lines [] l = l
listen_lines (line ∷ lines) l = listen_lines lines (listen_words (fields line) l)

abbrev pub openvpn_default : Listen
openvpn_default = record { proto = codes "udp"; port = 1194 }

-- `ReadServerListen`, `none` for a file that cannot be read
unfoldable pub read_server_listen : Option Text → Option Listen
unfolding listen_lines
read_server_listen none = none
read_server_listen (some conf) = some (listen_lines (split newline conf) openvpn_default)

-- `dnsLines`, its second entry for an unknown choice
unfoldable pub dns_lines : Text → List Text
dns_lines choice = elim (lookup (trim_space choice) dns_table) [
  | none ↦ codes "push \"dhcp-option DNS 8.8.8.8\"" ∷ codes "push \"dhcp-option DNS 8.8.4.4\"" ∷ []
  | some dns ↦ dns
]

-- The lines that `WriteServerConf` writes; the last one ends the file with a newline.
unfoldable pub server_lines : ℕ → Text → Text → List Text
unfolding dns_lines
server_lines port proto choice =
    (codes "port " ++ format port) ∷ (codes "proto " ++ proto) ∷ codes "dev tun" ∷ key_lines
    ++ codes "server 10.8.0.0 255.255.0.0"
      ∷ codes "ifconfig-pool-persist ipp.txt"
      ∷ []
      ∷ codes "push \"redirect-gateway def1\""
      ∷ dns_lines choice
    ++ crypto_lines
    ++ auth_lines
    ++ option_lines (codes "status /var/log/openvpn-status.log 5")
    ++ exit_notify proto
    ++ [] ∷ []

-- `WriteServerConf`
unfoldable pub write_server_conf : ℕ → Text → Text → Text
unfolding server_lines
write_server_conf port proto choice = join newline (server_lines port proto choice)

-- The pushed lines, none where their join is empty.
unfoldable pub pushed : List Text → List Text
pushed dns = elim (join newline dns) [ [] ↦ [] | c ∷ s ↦ dns ]

unfoldable pub instance_lines : ℕ → ℕ → Text → List Text → List Text
unfolding pushed
instance_lines id port proto dns =
    (codes "# Generated by hexplus (extra OpenVPN instance " ++ format id ++ codes ").")
      ∷ codes "# Managed via menu → OPENVPN → พอร์ตเพิ่มเติม."
      ∷ []
      ∷ (codes "port " ++ format port)
      ∷ (codes "proto " ++ proto)
      ∷ (codes "dev tun" ++ format id)
      ∷ key_lines
    ++ (codes "server 10." ++ format (8 + id - 1) ++ codes ".0.0 255.255.0.0")
      ∷ (codes "ifconfig-pool-persist ipp" ++ format id ++ codes ".txt")
      ∷ []
      ∷ codes "push \"redirect-gateway def1\""
      ∷ pushed dns
    ++ crypto_lines
    ++ auth_lines
    ++ option_lines (codes "status /var/log/openvpn-status" ++ format id ++ codes ".log 5")
    ++ exit_notify proto
    ++ [] ∷ []

-- `WriteInstanceConf`, `none` for an ID out of range
unfoldable pub write_instance_conf : ℕ → ℕ → Text → List Text → Option Text
unfolding instance_lines
write_instance_conf id port proto dns =
    if ltb id 2 || ltb 200 id then none else some (join newline (instance_lines id port proto dns))

abbrev pub is_duplicate_cn : Text → Bool
is_duplicate_cn line = text_eq (trim_space line) (codes "duplicate-cn")

-- `HasDuplicateCN`, `none` for a missing file
unfoldable pub has_duplicate_cn : Option Text → Bool
has_duplicate_cn none = false
has_duplicate_cn (some conf) = any is_duplicate_cn (split newline conf)

-- What `SetDuplicateCN` writes.
unfoldable pub set_duplicate_cn : Text → Bool → Text
set_duplicate_cn conf on =
    join newline (
      keep (λ l. not (is_duplicate_cn l)) (split newline (trim_right (λ c. c == newline) conf))
      ++ (if on then codes "duplicate-cn" ∷ [] else []))
    ++ newline ∷ []

-- `ClientConfigInput`
pub record ClientConfig : Type 0 where
  pub remote_host : Text
  pub remote_port : ℕ
  pub proto : Text

-- `clientCommonTmpl` filled in; the last line ends the file with a newline.
unfoldable pub client_lines : Text → ℕ → Text → List Text
client_lines host port proto =
    codes "client"
    ∷ codes "dev tun"
    ∷ (codes "proto " ++ proto)
    ∷ codes "sndbuf 0"
    ∷ codes "rcvbuf 0"
    ∷ (codes "remote " ++ host ++ codes " " ++ format port)
    ∷ codes "resolv-retry infinite"
    ∷ codes "nobind"
    ∷ codes "persist-key"
    ∷ codes "persist-tun"
    ∷ codes "remote-cert-tls server"
    ∷ codes "tls-version-min 1.2"
    ∷ codes "setenv opt data-ciphers AES-256-GCM:AES-128-GCM:AES-256-CBC"
    ∷ codes "setenv opt data-ciphers-fallback AES-256-CBC"
    ∷ codes "cipher AES-256-CBC"
    ∷ codes "auth SHA256"
    ∷ codes "setenv opt block-outside-dns"
    ∷ codes "key-direction 1"
    ∷ codes "verb 3"
    ∷ codes "auth-user-pass"
    ∷ codes "keepalive 10 120"
    ∷ codes "float"
    ∷ []
    ∷ []

unfoldable pub or_port : ℕ → ℕ
or_port port = if port == 0 then 1194 else port

unfoldable pub or_proto : Text → Text
or_proto [] = codes "udp"
or_proto (c ∷ s) = c ∷ s

-- The rest of `RenderClientCommon`, the host given.
unfoldable pub render_for : Text → ClientConfig → Option Text
unfolding client_lines or_port or_proto
render_for [] c = none
render_for (h ∷ host) c =
    some (join newline (client_lines (h ∷ host) (or_port c.remote_port) (or_proto c.proto)))

-- `RenderClientCommon`, `none` for an error
unfoldable pub render_client_common : ClientConfig → Option Text
unfolding render_for
render_client_common c = render_for c.remote_host c
