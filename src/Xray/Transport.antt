-- ===== src/Xray/Transport.antt =====
-- internal/xray/transport.go: the transport and the security of an inbound.
pub mod Envelope
use hexplus_v.Base.{
  ℕ, zero, suc, ◌+◌, ◌-◌, ◌*◌, ◌/◌, ◌%◌, ◌^◌, ◌≤◌, ◌<◌, ◌≡◌, refl, sym, ap, ◌∙◌, ◌≢◌, ◌↔◌, ◌⊎◌, inl,
  inr, Bool, true, false, ◌&&◌, ◌||◌, not, Option, none, some, List, [], ◌∷◌, ◌++◌, map,
  append_assoc, append-nil, arith, ltb, leb, ◌==◌, if◌then◌else◌, Bool-cases, Option-cases, length,
  take, drop, keep, any, tally, length-append, take-append-drop, length-drop, keep-append, All,
  All-append, All-imp, All-join,
}
use hexplus_v.Text.{Text, codes, text_eq}

-- `TLSCertificate`: the files, or the certificate and the key themselves.
pub record TlsCertificate : Type 0 where
  pub certificate_file : Text
  pub key_file : Text
  pub certificate : List Text
  pub key : List Text

-- `NetworkKind` and `SecurityKind` are texts.
pub record TransportParams : Type 0 where
  pub network : Text
  pub security : Text
  pub path : Text
  pub host : Text
  pub service_name : Text
  pub sni : Text
  pub alpn : List Text
  pub fingerprint : Text
  pub certificates : List TlsCertificate
  pub reality_dest : Text
  pub reality_server_names : List Text
  pub reality_private_key : Text
  pub reality_short_ids : List Text
  pub reality_spider_x : Text

abbrev pub no_params : TransportParams
no_params = record {
  network = [];
  security = [];
  path = [];
  host = [];
  service_name = [];
  sni = [];
  alpn = [];
  fingerprint = [];
  certificates = [];
  reality_dest = [];
  reality_server_names = [];
  reality_private_key = [];
  reality_short_ids = [];
  reality_spider_x = [];
}

-- `WSSettings`: the path, and the header `Host` if there is one
pub record WsSettings : Type 0 where
  pub path : Text
  pub headers : List (Text × Text)

pub record TlsSettings : Type 0 where
  pub server_name : Text
  pub alpn : List Text
  pub fingerprint : Text
  pub certificates : List TlsCertificate

pub record RealitySettings : Type 0 where
  pub dest : Text
  pub server_names : List Text
  pub private_key : Text
  pub short_ids : List Text
  pub spider_x : Text

-- What stands under `tcpSettings`.
pub data TcpSettings : Type 0 where
  http_upgrade : (path host : Text) → TcpSettings
  xhttp : (path host mode : Text) → TcpSettings

pub record StreamSetting : Type 0 where
  pub network : Text
  pub security : Text
  pub tls : Option TlsSettings
  pub reality : Option RealitySettings
  pub tcp : Option TcpSettings
  pub ws : Option WsSettings
  pub grpc : Option Text

pub data StreamError : Type 0 where
  unknown_network unknown_security no_private_key no_dest : StreamError

pub data Built {ℓ} (A : Type ℓ) : Type ℓ where
  ok : A → Built A
  err : StreamError → Built A

abbrev pub is_empty : Text → Bool
is_empty [] = true
is_empty (c ∷ s) = false

abbrev pub or_default : Text → Text → Text
or_default v fallback = if is_empty v then fallback else v

abbrev plain_stream : TransportParams → StreamSetting
plain_stream p = record {
  network = p.network;
  security = if text_eq p.security (codes "none") then [] else p.security;
  tls = none;
  reality = none;
  tcp = none;
  ws = none;
  grpc = none;
}

abbrev ws_headers : Text → List (Text × Text)
ws_headers host = if is_empty host then [] else (codes "Host", host) ∷ []

-- The transport-specific block of `buildStreamSetting`.
unfoldable pub with_network : TransportParams → StreamSetting → Built StreamSetting
with_network p s =
    if text_eq p.network (codes "tcp")
    then ok s
    else if text_eq p.network (codes "ws")
    then ok (record s { ws = some (record { path = p.path; headers = ws_headers p.host }) })
    else if text_eq p.network (codes "grpc")
    then ok (record s { grpc = some p.service_name })
    else if text_eq p.network (codes "httpupgrade")
    then ok (record s { tcp = some (http_upgrade p.path p.host) })
    else if text_eq p.network (codes "xhttp")
    then ok (record s { tcp = some (xhttp p.path p.host (codes "auto")) })
    else if text_eq p.network (codes "kcp")
    then ok s
    else err unknown_network

abbrev tls_of : TransportParams → TlsSettings
tls_of p = record {
  server_name = p.sni;
  alpn = p.alpn;
  fingerprint = p.fingerprint;
  certificates = p.certificates;
}

abbrev reality_of : TransportParams → RealitySettings
reality_of p = record {
  dest = p.reality_dest;
  server_names = p.reality_server_names;
  private_key = p.reality_private_key;
  short_ids = p.reality_short_ids;
  spider_x = or_default p.reality_spider_x (codes "/");
}

-- The security-specific block.
unfoldable pub with_security : TransportParams → Built StreamSetting → Built StreamSetting
with_security p (err e) = err e
with_security p (ok s) =
    if text_eq p.security (codes "none")
    then ok s
    else if text_eq p.security (codes "tls")
    then ok (record s { tls = some (tls_of p) })
    else if text_eq p.security (codes "reality")
    then (if is_empty p.reality_private_key
        then err no_private_key
        else if is_empty p.reality_dest
        then err no_dest
        else ok (record s { reality = some (reality_of p) }))
    else err unknown_security

-- The kinds that stand for an empty one.
unfoldable pub defaulted : TransportParams → TransportParams
defaulted p = record p {
  network = or_default p.network (codes "tcp");
  security = or_default p.security (codes "none");
}

-- `buildStreamSetting`
unfoldable pub build_stream_setting : TransportParams → Built StreamSetting
unfolding with_network with_security defaulted
build_stream_setting p =
    with_security (defaulted p) (with_network (defaulted p) (plain_stream (defaulted p)))
