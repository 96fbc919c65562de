-- ===== src/Portclaim.antt =====
-- internal/portclaim/portclaim.go: which service listens on which port.
use hexplus_v.Base.{
  ℕ, Bool, ◌&&◌, not, Option, none, some, List, [], ◌∷◌, ◌++◌, map, ltb, ◌==◌, if◌then◌else◌, any,
}
use hexplus_v.Ovpninstance.{Instance, extras}
use hexplus_v.Text.{Text, codes, text_eq}
use hexplus_v.Text.Number.{format}

pub record Claim : Type 0 where
  pub owner : Text
  pub proto : Text
  pub port : ℕ

-- What the services' configurations say, each as its own loader returns it: `none` for an error.
pub record Configs : Type 0 where
  pub server_listen : Option (Text × ℕ)
  pub instances : List Instance
  pub sslh_port : Option ℕ
  pub ssl_port : Option ℕ
  pub proxies : Option (List (Text × ℕ))

-- `OpenVPNExtra` and `Proxy`
unfoldable pub openvpn_extra : ℕ → Text
openvpn_extra id = codes "openvpn-" ++ format id

unfoldable pub proxy_owner : Text → Text
proxy_owner name = codes "proxy-" ++ name

-- A claim on a port that is set.
unfoldable pub tcp_claim : Text → ℕ → List Claim
tcp_claim owner port =
    if ltb 0 port then record { owner = owner; proto = codes "tcp"; port = port } ∷ [] else []

unfoldable pub proxy_claims : List (Text × ℕ) → List Claim
unfolding proxy_owner tcp_claim
proxy_claims [] = []
proxy_claims ((name, port) ∷ proxies) = tcp_claim (proxy_owner name) port ++ proxy_claims proxies

abbrev listen_claim : Option (Text × ℕ) → List Claim
listen_claim none = []
listen_claim (some (proto, port)) =
    record { owner = codes "openvpn"; proto = proto; port = port } ∷ []

abbrev set_claim : Text → Option ℕ → List Claim
set_claim owner none = []
set_claim owner (some port) = tcp_claim owner port

abbrev loaded_claims : Option (List (Text × ℕ)) → List Claim
loaded_claims none = []
loaded_claims (some proxies) = proxy_claims proxies

-- `All`, with its `sources`
unfoldable pub all_claims : Configs → List Claim
unfolding openvpn_extra extras
all_claims c =
    listen_claim c.server_listen
    ++ (map (λ i. record { owner = openvpn_extra i.id; proto = i.proto; port = i.port })
          (extras c.instances)
        ++ (set_claim (codes "sslhmux") c.sslh_port
            ++ (set_claim (codes "ssltunnel") c.ssl_port ++ loaded_claims c.proxies)))

abbrev pub is_held : Text → Text → ℕ → Claim → Bool
is_held self proto port c = not (text_eq c.owner self) && text_eq c.proto proto && c.port == port

-- `HeldByOther`
unfoldable pub held_by_other : Configs → Text → Text → ℕ → Bool
unfolding all_claims
held_by_other configs self proto port = any (is_held self proto port) (all_claims configs)
