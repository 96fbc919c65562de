-- ===== src/Xray/Settings.antt =====
-- internal/xray/proto_*.go: the settings of an inbound for its clients. The clients are the rows of the
-- panel; the fields of the settings that are never set are left out.
pub mod Secrets
pub mod Open
use hexplus_v.Base.{Bool, true, ◌||◌, not, List, [], ◌∷◌, map, if◌then◌else◌, keep}
use hexplus_v.Base.Int.{ℤ}
use hexplus_v.Panel.Rows.{ClientRow}
use hexplus_v.Text.{Text, codes, has_prefix}
use hexplus_v.Xray.Transport.{is_empty}

-- A client of VLESS: its id, flow and email
pub record VlessClient : Type 0 where
  pub id : Text
  pub flow : Text
  pub email : Text

pub record VmessClient : Type 0 where
  pub id : Text
  pub email : Text

pub record TrojanClient : Type 0 where
  pub password : Text
  pub email : Text
  pub flow : Text

-- A client of Shadowsocks 2022 or of Hysteria2.
pub record KeyClient : Type 0 where
  pub password : Text
  pub email : Text

pub record Account : Type 0 where
  pub user : Text
  pub pass : Text

pub record Peer : Type 0 where
  pub public_key : Text
  pub allowed_ips : List Text

pub data Settings : Type 0 where
  vless : (clients : List VlessClient) (decryption : Text) → Settings
  vmess : (clients : List VmessClient) → Settings
  trojan : (clients : List TrojanClient) → Settings
  shadowsocks : (method password network : Text) (clients : List KeyClient) → Settings
  hysteria2 : (users : List KeyClient) → Settings
  wireguard : (secret_key : Text) (peers : List Peer) → Settings
  http : (accounts : List Account) → Settings
  socks : (auth : Text) (accounts : List Account) (udp : Bool) → Settings
  dokodemo : (address : Text) (port : ℤ) (network : Text) → Settings
  address_only : (address : Text) → Settings

abbrev pub enabled_of : List ClientRow → List ClientRow
enabled_of = keep (λ c. c.enabled)

abbrev vless_client : Text → ClientRow → VlessClient
vless_client flow c = record { id = c.uuid; flow = flow; email = c.email }

-- `buildVLESSSettings`
unfoldable pub build_vless_settings : List ClientRow → Text → Settings
build_vless_settings cs flow = vless (map (vless_client flow) (enabled_of cs)) (codes "none")

abbrev vmess_client : ClientRow → VmessClient
vmess_client c = record { id = c.uuid; email = c.email }

-- `buildVMessSettings`
unfoldable pub build_vmess_settings : List ClientRow → Settings
build_vmess_settings cs = vmess (map vmess_client (enabled_of cs))

abbrev trojan_client : Text → ClientRow → TrojanClient
trojan_client flow c = record { password = c.password; email = c.email; flow = flow }

-- `buildTrojanSettings`
unfoldable pub build_trojan_settings : List ClientRow → Text → Settings
build_trojan_settings cs flow = trojan (map (trojan_client flow) (enabled_of cs))

-- `isSS2022`
abbrev pub is_ss_2022 : Text → Bool
is_ss_2022 method = has_prefix (codes "2022-") method

abbrev ss_client : ClientRow → KeyClient
ss_client c = record { password = c.shared_key; email = c.email }

-- The end of `buildSSSettings` with the enabled clients.
abbrev pub ss_settings : Text → List ClientRow → Settings
ss_settings method [] = shadowsocks method [] (codes "tcp,udp") []
ss_settings method (c ∷ cs) =
    if is_ss_2022 method
    then shadowsocks method [] (codes "tcp,udp") (map ss_client (c ∷ cs))
    else shadowsocks method c.shared_key (codes "tcp,udp") []

-- `buildSSSettings`
unfoldable pub build_ss_settings : Text → List ClientRow → Settings
build_ss_settings method cs = ss_settings method (enabled_of cs)

abbrev hy2_client : ClientRow → KeyClient
hy2_client c = record { password = c.password; email = c.email }

-- `buildHysteria2Settings`
unfoldable pub build_hysteria2_settings : List ClientRow → Settings
build_hysteria2_settings cs = hysteria2 (map hy2_client (enabled_of cs))

abbrev peer : ClientRow → Peer
peer c = record { public_key = c.shared_key; allowed_ips = codes "0.0.0.0/0" ∷ [] }

-- `buildWireGuardSettings`
unfoldable pub build_wireguard_settings : Text → List ClientRow → Settings
build_wireguard_settings secret_key cs = wireguard secret_key (map peer (enabled_of cs))

-- A client with a name and a password, for the proxies with accounts.
abbrev pub has_account : ClientRow → Bool
has_account c = not (not c.enabled || is_empty c.email || is_empty c.password)

abbrev account : ClientRow → Account
account c = record { user = c.email; pass = c.password }

-- `buildHTTPSettings`
unfoldable pub build_http_settings : List ClientRow → Settings
build_http_settings cs = http (map account (keep has_account cs))

abbrev auth_for : List Account → Text
auth_for [] = codes "noauth"
auth_for (a ∷ rest) = codes "password"

-- `buildSOCKSSettings`
unfoldable pub build_socks_settings : List ClientRow → Settings
build_socks_settings cs =
    let accounts : List Account = map account (keep has_account cs) in
    socks (auth_for accounts) accounts true

-- `buildDokodemoSettings`
unfoldable pub build_dokodemo_settings : Text → ℤ → Text → Settings
build_dokodemo_settings address port network =
    dokodemo address port (if is_empty network then codes "tcp,udp" else network)
