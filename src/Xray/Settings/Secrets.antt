-- ===== src/Xray/Settings/Secrets.antt =====
-- internal/xray/proto_*.go: whose credentials the settings hold.
use hexplus_v.Base.{
  ◌≡◌, refl, ap, ◌∙◌, inl, inr, Bool, true, List, [], ◌∷◌, map, arith, Bool-cases, keep,
}
use hexplus_v.Base.Members.{In, In-keep, In-map, keep-In, map-In}
use hexplus_v.Panel.Rows.{ClientRow}
use hexplus_v.Text.{codes, Text}
use hexplus_v.Xray.Settings.{
  ss_client, KeyClient, TrojanClient, VmessClient, VlessClient, Account, Peer, is_ss_2022,
  ss_settings, enabled_of, has_account, build_vless_settings, build_vmess_settings,
  build_trojan_settings, build_ss_settings, build_hysteria2_settings, build_wireguard_settings,
  build_http_settings, build_socks_settings, Settings, VlessClient, VmessClient, TrojanClient,
  KeyClient, Account, Peer, vless, vmess, trojan, shadowsocks, hysteria2, wireguard, http, socks,
  dokodemo, address_only, has_account,
}

-- What admits somebody to an inbound with these settings.
abbrev pub secrets : Settings → List Text
secrets (vless clients d) = map (λ (c : VlessClient). c.id) clients
secrets (vmess clients) = map (λ (c : VmessClient). c.id) clients
secrets (trojan clients) = map (λ (c : TrojanClient). c.password) clients
secrets (shadowsocks m [] n clients) = map (λ (c : KeyClient). c.password) clients
secrets (shadowsocks m (b ∷ p) n clients) = (b ∷ p) ∷ map (λ (c : KeyClient). c.password) clients
secrets (hysteria2 users) = map (λ (c : KeyClient). c.password) users
secrets (wireguard k peers) = map (λ (c : Peer). c.public_key) peers
secrets (http accounts) = map (λ (a : Account). a.pass) accounts
secrets (socks a accounts u) = map (λ (a : Account). a.pass) accounts
secrets (dokodemo a p n) = []
secrets (address_only a) = []

abbrev pub uuid_of : ClientRow → Text
uuid_of c = c.uuid

abbrev pub password_of : ClientRow → Text
password_of c = c.password

abbrev pub key_of : ClientRow → Text
key_of c = c.shared_key

-- A secret of an enabled client.
abbrev pub IsOwned : (ClientRow → Text) → List ClientRow → Text → Type 0
IsOwned secret cs s = (c : ClientRow) × In c cs × (c.enabled ≡ true) × (s ≡ secret c)

mapped-IsOwned :
    {B : Type 0} (secret : ClientRow → Text) (p : ClientRow → Bool) (f : ClientRow → B)
    (g : B → Text) (cs : List ClientRow) (s : Text)
    → ((c : ClientRow) → p c ≡ true → c.enabled ≡ true)
    → ((c : ClientRow) → g (f c) ≡ secret c)
    → In s (map g (map f (keep p cs)))
    → IsOwned secret cs s
mapped-IsOwned secret p f g cs s on same m =
    let (b, n, e) = map-In g s (map f (keep p cs)) m in
    let (c, o, e') = map-In f b (keep p cs) n in
    let (in_cs, kept) = keep-In p c cs o in (c, in_cs, on c kept, e ∙ ap g e' ∙ same c)

owned-mapped :
    {B : Type 0} (secret : ClientRow → Text) (p : ClientRow → Bool) (f : ClientRow → B)
    (g : B → Text) (cs : List ClientRow) (c : ClientRow)
    → ((d : ClientRow) → g (f d) ≡ secret d)
    → In c cs
    → p c ≡ true
    → In (secret c) (map g (map f (keep p cs)))
owned-mapped secret p f g cs c same m kept =
    rw (← same c)
      (In-map g (f c) (map f (keep p cs)) (In-map f c (keep p cs) (In-keep p c cs m kept)))

abbrev is_on : ClientRow → Bool
is_on c = c.enabled

account-on : (c : ClientRow) → has_account c ≡ true → c.enabled ≡ true
account-on c h = ground arith

keyed_secret :
    (method key network s : Text) → In s (secrets (shadowsocks method key network [])) → s ≡ key
keyed_secret method [] network s m = elim m [ ]
keyed_secret method (b ∷ key) network s (inl e) = e
keyed_secret method (b ∷ key) network s (inr m) = elim m [ ]

-- The secrets of these settings, for the clients that are enabled.
ss_settings-In :
    (method s : Text) (es : List ClientRow)
    → In s (secrets (ss_settings method es))
    → (c : ClientRow) × In c es × (s ≡ key_of c)
ss_settings-In method s [] m = elim m [ ]
ss_settings-In method s (c ∷ es) m = elim (Bool-cases (is_ss_2022 method)) [
  | inl new ↦
      listed (map-In (λ (k : KeyClient). k.password) s (map ss_client (c ∷ es)) (rw new at m))
  | inr classic ↦
      (c, inl refl, keyed_secret method c.shared_key (codes "tcp,udp") s (rw classic at m))
]
  where
    listed :
        ((k : KeyClient) × In k (map ss_client (c ∷ es)) × (s ≡ k.password))
        → (d : ClientRow) × In d (c ∷ es) × (s ≡ key_of d)
    listed (k, n, e) =
        let (d, o, e') = map-In ss_client k (c ∷ es) n in
        (d, o, e ∙ ap (λ (j : KeyClient). j.password) e')

-- The settings hold secrets of enabled clients only.
module _ (cs : List ClientRow) (s : Text) where
  abbrev pub Owns : (ClientRow → Text) → Settings → Type 0
  Owns secret st = In s (secrets st) → IsOwned secret cs s

  pub vless-Owns : (flow : Text) → Owns uuid_of (build_vless_settings cs flow)
  unfolding build_vless_settings
  vless-Owns flow =
      mapped-IsOwned uuid_of is_on _ (λ (c : VlessClient). c.id) cs s (λ c h. h) (λ c. refl)

  pub vmess-Owns : Owns uuid_of (build_vmess_settings cs)
  unfolding build_vmess_settings
  vmess-Owns =
      mapped-IsOwned uuid_of is_on _ (λ (c : VmessClient). c.id) cs s (λ c h. h) (λ c. refl)

  pub trojan-Owns : (flow : Text) → Owns password_of (build_trojan_settings cs flow)
  unfolding build_trojan_settings
  trojan-Owns flow =
      mapped-IsOwned password_of is_on _ (λ (c : TrojanClient). c.password) cs s (λ c h. h)
        (λ c. refl)

  pub hysteria2-Owns : Owns password_of (build_hysteria2_settings cs)
  unfolding build_hysteria2_settings
  hysteria2-Owns =
      mapped-IsOwned password_of is_on _ (λ (c : KeyClient). c.password) cs s (λ c h. h) (λ c. refl)

  pub wireguard-Owns : (secret_key : Text) → Owns key_of (build_wireguard_settings secret_key cs)
  unfolding build_wireguard_settings
  wireguard-Owns secret_key =
      mapped-IsOwned key_of is_on _ (λ (c : Peer). c.public_key) cs s (λ c h. h) (λ c. refl)

  pub http-Owns : Owns password_of (build_http_settings cs)
  unfolding build_http_settings
  http-Owns =
      mapped-IsOwned password_of has_account _ (λ (a : Account). a.pass) cs s account-on (λ c. refl)

  pub socks-Owns : Owns password_of (build_socks_settings cs)
  unfolding build_socks_settings
  socks-Owns =
      mapped-IsOwned password_of has_account _ (λ (a : Account). a.pass) cs s account-on (λ c. refl)

  pub ss-Owns : (method : Text) → Owns key_of (build_ss_settings method cs)
  unfolding build_ss_settings
  ss-Owns method m =
      let (c, n, e) = ss_settings-In method s (enabled_of cs) m in
      let (o, on) = keep-In is_on c cs n in (c, o, on, e)

-- The settings hold the secret of every enabled client.
module _ (cs : List ClientRow) (c : ClientRow) (m : In c cs) (on : c.enabled ≡ true) where
  pub vless-uuid_of : (flow : Text) → In (uuid_of c) (secrets (build_vless_settings cs flow))
  unfolding build_vless_settings
  vless-uuid_of flow =
      owned-mapped uuid_of is_on _ (λ (d : VlessClient). d.id) cs c (λ d. refl) m on

  pub vmess-uuid_of : In (uuid_of c) (secrets (build_vmess_settings cs))
  unfolding build_vmess_settings
  vmess-uuid_of = owned-mapped uuid_of is_on _ (λ (d : VmessClient). d.id) cs c (λ d. refl) m on

  pub trojan-password_of :
      (flow : Text) → In (password_of c) (secrets (build_trojan_settings cs flow))
  unfolding build_trojan_settings
  trojan-password_of flow =
      owned-mapped password_of is_on _ (λ (d : TrojanClient). d.password) cs c (λ d. refl) m on

  pub hysteria2-password_of : In (password_of c) (secrets (build_hysteria2_settings cs))
  unfolding build_hysteria2_settings
  hysteria2-password_of =
      owned-mapped password_of is_on _ (λ (d : KeyClient). d.password) cs c (λ d. refl) m on
