-- ===== src/Xray/Generate/Served.antt =====
-- internal/xray/generate.go: whom the generated configuration serves.
use hexplus_v.Base.{
  ◌≡◌, refl, sym, ap, ◌∙◌, inl, inr, Bool, true, false, ◌||◌, Option, none, some, List, [], ◌∷◌,
  arith, if◌then◌else◌,
}
use mathlib.Core.Option.{some-injective}
use hexplus_v.Base.Int.{ℤ, pos, eqb_ℤ}
use hexplus_v.Base.Members.{In}
use hexplus_v.Panel.Rows.{ClientRow, InboundRow}
use hexplus_v.Text.{Text, codes, text_eq, text_eq_iff}
use hexplus_v.Xray.Transport.{
  TransportParams, StreamSetting, Built, ok, err, is_empty, build_stream_setting,
}
use hexplus_v.Xray.Settings.{Settings, build_dokodemo_settings}
use hexplus_v.Xray.Settings.Secrets.{
  secrets, uuid_of, password_of, key_of, IsOwned, vless-Owns, vmess-Owns, trojan-Owns,
  hysteria2-Owns, wireguard-Owns, http-Owns, socks-Owns, ss-Owns,
}
use hexplus_v.Xray.Generate.{
  inbound_of, settings_for, extract_string, extract_int, wireguard_for, dokodemo_for, flow_for,
  load_clients, build_inbound, build_inbounds, build_behind, build_with, inbound_with, with_built,
  stored_params,
}
use hexplus_v.Xray.Config.{Decoder, Inbound}

-- The column that a protocol takes for the secret of a client.
unfoldable pub credential : Text → ClientRow → Text
credential protocol =
    if text_eq protocol (codes "vless") || text_eq protocol (codes "vmess")
    then uuid_of
    else if text_eq protocol (codes "shadowsocks") || text_eq protocol (codes "wireguard")
    then key_of
    else password_of

abbrev OwnsAll : Text → List ClientRow → Option Settings → Type 0
OwnsAll protocol cs o =
    (st : Settings)
    → o ≡ some st
    → (s : Text) → In s (secrets st)
    → IsOwned (credential protocol) cs s

if-OwnsAll :
    (protocol : Text) (cs : List ClientRow) (b : Bool) (x y : Option Settings)
    → (b ≡ true → OwnsAll protocol cs x)
    → OwnsAll protocol cs y
    → OwnsAll protocol cs (if b then x else y)
if-OwnsAll protocol cs true x y hx hy = hx refl
if-OwnsAll protocol cs false x y hx hy = hy

-- A branch of the dispatch, for a protocol that is known by its name.
named-OwnsAll :
    (protocol name : Text) (cs : List ClientRow) (secret : ClientRow → Text) (st : Settings)
    → text_eq protocol name ≡ true
    → credential name ≡ secret
    → ((s : Text) → In s (secrets st) → IsOwned secret cs s)
    → OwnsAll protocol cs (some st)
named-OwnsAll protocol name cs secret st e same owned st' e' s m =
    rw (ap credential ((text_eq_iff protocol name).0 e), same)
      (owned s (rw (some-injective st st' e') m))

none-OwnsAll : (protocol : Text) (cs : List ClientRow) → OwnsAll protocol cs none
none-OwnsAll protocol cs st e = absurd (ground (arith, e))

dokodemo-OwnsAll :
    (protocol : Text) (cs : List ClientRow) (a n : Text) (port : ℤ)
    → OwnsAll protocol cs (some (build_dokodemo_settings a port n))
unfolding build_dokodemo_settings
dokodemo-OwnsAll protocol cs a n port st e s m =
    elim (rw (← some-injective (build_dokodemo_settings a port n) st e) at m) [ ]

module _ (decoder : Decoder) where
  dokodemo_for-OwnsAll :
      (i : InboundRow) (cs : List ClientRow) (port : ℤ)
      → OwnsAll i.protocol cs (dokodemo_for decoder i port)
  dokodemo_for-OwnsAll i cs port =
      if-OwnsAll i.protocol cs (eqb_ℤ port (pos 0)) none _ (λ e. none-OwnsAll i.protocol cs)
        (dokodemo-OwnsAll i.protocol cs _ _ port)

  wireguard-OwnsAll :
      (protocol : Text) (cs : List ClientRow) (secret_key : Text)
      → text_eq protocol (codes "wireguard") ≡ true
      → OwnsAll protocol cs (wireguard_for decoder secret_key cs)
  unfolding credential text_eq
  wireguard-OwnsAll protocol cs secret_key e =
      if-OwnsAll protocol cs (is_empty secret_key) none _ (λ h. none-OwnsAll protocol cs)
        (named-OwnsAll protocol (codes "wireguard") cs key_of _ e refl
          (λ s. wireguard-Owns cs s secret_key))

  settings_for-OwnsAll :
      (i : InboundRow) (tp : TransportParams) (cs : List ClientRow)
      → OwnsAll i.protocol cs (settings_for decoder i tp cs)
  unfolding settings_for credential text_eq
  settings_for-OwnsAll i tp cs =
      if-OwnsAll i.protocol cs (text_eq i.protocol (codes "vless")) _ _
        (λ e.
          named-OwnsAll i.protocol (codes "vless") cs uuid_of _ e refl
            (λ s. vless-Owns cs s (flow_for tp)))
        (if-OwnsAll i.protocol cs (text_eq i.protocol (codes "vmess")) _ _
          (λ e. named-OwnsAll i.protocol (codes "vmess") cs uuid_of _ e refl (λ s. vmess-Owns cs s))
          (if-OwnsAll i.protocol cs (text_eq i.protocol (codes "trojan")) _ _
            (λ e.
              named-OwnsAll i.protocol (codes "trojan") cs password_of _ e refl
                (λ s. trojan-Owns cs s (flow_for tp)))
            (if-OwnsAll i.protocol cs (text_eq i.protocol (codes "shadowsocks")) _ _
              (λ e. named-OwnsAll i.protocol (codes "shadowsocks") cs key_of _ e refl (λ s.
                ss-Owns cs s
                  (extract_string decoder i.settings (codes "method") (codes "aes-256-gcm"))))
              (if-OwnsAll i.protocol cs (text_eq i.protocol (codes "hysteria2")) _ _
                (λ e.
                  named-OwnsAll i.protocol (codes "hysteria2") cs password_of _ e refl
                    (λ s. hysteria2-Owns cs s))
                (if-OwnsAll i.protocol cs (text_eq i.protocol (codes "wireguard")) _ _
                  (λ e.
                    wireguard-OwnsAll i.protocol cs
                      (extract_string decoder i.settings (codes "secretKey") []) e)
                  (if-OwnsAll i.protocol cs (text_eq i.protocol (codes "http")) _ _
                    (λ e.
                      named-OwnsAll i.protocol (codes "http") cs password_of _ e refl
                        (λ s. http-Owns cs s))
                    (if-OwnsAll i.protocol cs (text_eq i.protocol (codes "socks")) _ _
                      (λ e.
                        named-OwnsAll i.protocol (codes "socks") cs password_of _ e refl
                          (λ s. socks-Owns cs s))
                      (if-OwnsAll i.protocol cs (text_eq i.protocol (codes "dokodemo-door")) _ _
                        (λ e.
                          dokodemo_for-OwnsAll i cs
                            (extract_int decoder i.settings (codes "port") (pos 0)))
                        (none-OwnsAll i.protocol cs)))))))))

  -- Every secret of an inbound that is built belongs to an enabled client of its row.
  abbrev IsBuiltFor : List ClientRow → InboundRow → Option Inbound → Type 0
  IsBuiltFor clients i o =
      (b : Inbound)
      → o ≡ some b
      → (b.tag ≡ i.tag)
        × (b.protocol ≡ i.protocol)
        × (b.port ≡ i.port)
        × ((s : Text)
            → In s (secrets b.settings)
            → IsOwned (credential i.protocol) (load_clients clients i.id) s)

  inbound_with-IsBuiltFor :
      (clients : List ClientRow) (i : InboundRow) (stream : StreamSetting) (o : Option Settings)
      → OwnsAll i.protocol (load_clients clients i.id) o
      → IsBuiltFor clients i (inbound_with decoder i stream o)
  inbound_with-IsBuiltFor clients i stream none owns b e = absurd (ground (arith, e))
  inbound_with-IsBuiltFor clients i stream (some st) owns b e =
      rw (← some-injective (inbound_of decoder i stream st) b e) (refl, refl, refl, owns st refl)

  build_behind-IsBuiltFor :
      (clients : List ClientRow) (i : InboundRow) (tp : TransportParams) (r : Built StreamSetting)
      → IsBuiltFor clients i (build_behind decoder i (load_clients clients i.id) tp r)
  build_behind-IsBuiltFor clients i tp (err x) b e = absurd (ground (arith, e))
  build_behind-IsBuiltFor clients i tp (ok stream) b e =
      inbound_with-IsBuiltFor clients i stream
        (settings_for decoder i tp (load_clients clients i.id))
        (settings_for-OwnsAll i tp (load_clients clients i.id)) b e

  build_with-IsBuiltFor :
      (clients : List ClientRow) (i : InboundRow) (o : Option TransportParams)
      → IsBuiltFor clients i (build_with decoder i (load_clients clients i.id) o)
  build_with-IsBuiltFor clients i none b e = absurd (ground (arith, e))
  build_with-IsBuiltFor clients i (some tp) b e =
      build_behind-IsBuiltFor clients i tp (build_stream_setting tp) b e

  build_inbound-IsBuiltFor :
      (clients : List ClientRow) (i : InboundRow)
      → IsBuiltFor clients i (build_inbound decoder clients i)
  unfolding build_inbound
  build_inbound-IsBuiltFor clients i =
      build_with-IsBuiltFor clients i (stored_params decoder i.stream)

  -- An inbound for a row, with the secrets of its clients.
  pub record IsFor (clients : List ClientRow) (i : InboundRow) (b : Inbound) : Type 0 where
    pub tag : b.tag ≡ i.tag
    pub protocol : b.protocol ≡ i.protocol
    pub port : b.port ≡ i.port
    pub owned :
        (s : Text)
        → In s (secrets b.settings)
        → IsOwned (credential i.protocol) (load_clients clients i.id) s

  pub build_inbounds-In :
      (clients : List ClientRow) (is : List InboundRow) (b : Inbound)
      → In b (build_inbounds decoder clients is)
      → (i : InboundRow) × In i is × IsFor clients i b
  unfolding build_inbounds
  build_inbounds-In clients [] b m = elim m [ ]
  build_inbounds-In clients (i ∷ is) b m =
      split (build_inbound decoder clients i) refl m (λ n. build_inbounds-In clients is b n)
    where
      split :
          (o : Option Inbound)
          → build_inbound decoder clients i ≡ o
          → In b (with_built decoder o (build_inbounds decoder clients is))
          → (In b (build_inbounds decoder clients is)
              → (j : InboundRow) × In j is × IsFor clients j b)
          → (j : InboundRow) × In j (i ∷ is) × IsFor clients j b
      split none e n later = let (j, o, f) = later n in (j, inr o, f)
      split (some c) e (inr n) later = let (j, o, f) = later n in (j, inr o, f)
      split (some c) e (inl here) later =
          let (tag, protocol, port, owned) =
            build_inbound-IsBuiltFor clients i b (e ∙ ap some (sym here)) in
          (i, inl refl, record { tag = tag; protocol = protocol; port = port; owned = owned })
