-- ===== src/Pki/Lines.antt =====
-- internal/pki/serverconf.go: the fixed lines of the server configurations.
use hexplus_v.Base.{List, [], ◌∷◌, ◌++◌, if◌then◌else◌}
use hexplus_v.Text.{Text, codes, text_eq}

abbrev pub key_lines : List Text
key_lines =
    codes "sndbuf 0"
    ∷ codes "rcvbuf 0"
    ∷ []
    ∷ codes "ca   /etc/openvpn/ca.crt"
    ∷ codes "cert /etc/openvpn/server.crt"
    ∷ codes "key  /etc/openvpn/server.key"
    ∷ codes "tls-auth /etc/openvpn/ta.key 0"
    ∷ []
    ∷ codes "dh none"
    ∷ codes "ecdh-curve secp384r1"
    ∷ []
    ∷ codes "topology subnet"
    ∷ []

abbrev pub crypto_lines : List Text
crypto_lines =
    []
    ∷ codes "keepalive 10 120"
    ∷ []
    ∷ codes "data-ciphers AES-256-GCM:AES-128-GCM:AES-256-CBC"
    ∷ codes "data-ciphers-fallback AES-256-CBC"
    ∷ codes "cipher AES-256-CBC"
    ∷ codes "auth SHA256"
    ∷ []
    ∷ codes "persist-key"
    ∷ codes "persist-tun"
    ∷ codes "client-to-client"
    ∷ []

-- `AuthScriptPath`
abbrev pub auth_script_path : Text
auth_script_path = codes "/etc/openvpn/hexplus-auth.sh"

-- `authDirectives`
abbrev pub auth_lines : List Text
auth_lines =
    codes "script-security 2"
    ∷ codes "verify-client-cert none"
    ∷ codes "username-as-common-name"
    ∷ (codes "auth-user-pass-verify " ++ auth_script_path ++ codes " via-file")
    ∷ []

-- The lines behind the authentication, with the one of the status file.
abbrev pub option_lines : Text → List Text
option_lines status =
    codes "duplicate-cn"
    ∷ []
    ∷ codes "max-clients 65535"
    ∷ []
    ∷ status
    ∷ codes "status-version 2"
    ∷ codes "verb 3"
    ∷ []

abbrev pub exit_notify : Text → List Text
exit_notify proto = if text_eq proto (codes "udp") then codes "explicit-exit-notify 1" ∷ [] else []

-- `dnsLines`
abbrev pub dns_table : List (Text × List Text)
dns_table =
    (codes "1", [])
    ∷ (
      codes "2",
      codes "push \"dhcp-option DNS 8.8.8.8\"" ∷ codes "push \"dhcp-option DNS 8.8.4.4\"" ∷ [],
    )
    ∷ (
      codes "3",
      codes "push \"dhcp-option DNS 208.67.222.222\""
          ∷ codes "push \"dhcp-option DNS 208.67.220.220\""
          ∷ [],
    )
    ∷ (
      codes "4",
      codes "push \"dhcp-option DNS 1.1.1.1\"" ∷ codes "push \"dhcp-option DNS 1.0.0.1\"" ∷ [],
    )
    ∷ (codes "5", codes "push \"dhcp-option DNS 74.82.42.42\"" ∷ [])
    ∷ (
      codes "6",
      codes "push \"dhcp-option DNS 64.6.64.6\"" ∷ codes "push \"dhcp-option DNS 64.6.65.6\"" ∷ [],
    )
    ∷ (
      codes "7",
      codes "push \"dhcp-option DNS 189.38.95.95\""
          ∷ codes "push \"dhcp-option DNS 216.146.36.36\""
          ∷ [],
    )
    ∷ []
