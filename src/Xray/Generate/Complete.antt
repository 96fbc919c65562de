-- ===== src/Xray/Generate/Complete.antt =====
-- internal/xray/generate.go: that the enabled clients are served.
use hexplus_v.Base.{
  ◌≡◌, refl, sym, ap, ◌∙◌, ◌⊎◌, inl, inr, true, Option, none, some, List, [], ◌∷◌, arith, ◌==◌,
  keep,
}
use hexplus_v.Base.Members.{In, In-keep}
use hexplus_v.Panel.Rows.{ClientRow, InboundRow, Tables}
use hexplus_v.Text.{Text, codes, text_eq}
use hexplus_v.Xray.Transport.{TransportParams, StreamSetting, Built, ok, err, build_stream_setting}
use hexplus_v.Xray.Transport.Envelope.{is_ok}
use hexplus_v.Xray.Settings.{
  Settings, build_vless_settings, build_vmess_settings, build_trojan_settings,
  build_hysteria2_settings,
}
use hexplus_v.Xray.Settings.Secrets.{
  secrets, vless-uuid_of, vmess-uuid_of, trojan-password_of, hysteria2-password_of,
}
use hexplus_v.Xray.Generate.{
  inbound_of, settings_for, flow_for, load_clients, build_inbound, build_inbounds, build_behind,
  inbound_with, with_built, stored_params, generate,
}
use hexplus_v.Xray.Config.{Decoder, Inbound, OutboundRow, RuleRow}
use hexplus_v.Xray.Generate.Served.{credential}

-- A protocol whose settings list every client.
abbrev pub IsListed : Text → Type 0
IsListed p =
    (p ≡ codes "vless") ⊎ ((p ≡ codes "vmess") ⊎ ((p ≡ codes "trojan") ⊎ (p ≡ codes "hysteria2")))

module _ (decoder : Decoder) where
  -- The settings list the client.
  abbrev Lists : InboundRow → ClientRow → Option Settings → Type 0
  Lists i c o = (st : Settings) × (o ≡ some st) × In (credential i.protocol c) (secrets st)

  settings_for-Lists :
      (i : InboundRow) (tp : TransportParams) (cs : List ClientRow) (c : ClientRow)
      → IsListed i.protocol
      → In c cs
      → c.enabled ≡ true
      → Lists i c (settings_for decoder i tp cs)
  unfolding settings_for credential text_eq
  settings_for-Lists i tp cs c (inl e) m on = (
    build_vless_settings cs (flow_for tp),
    rw (ap (λ p. text_eq p (codes "vless")) e) refl,
    rw (ap (λ p. credential p c) e) (vless-uuid_of cs c m on (flow_for tp)),
  )
  settings_for-Lists i tp cs c (inr (inl e)) m on = (
    build_vmess_settings cs,
    rw (ap (λ p. text_eq p (codes "vless")) e, ap (λ p. text_eq p (codes "vmess")) e) refl,
    rw (ap (λ p. credential p c) e) (vmess-uuid_of cs c m on),
  )
  settings_for-Lists i tp cs c (inr (inr (inl e))) m on = (
    build_trojan_settings cs (flow_for tp),
    rw
        (
          ap (λ p. text_eq p (codes "vless")) e,
          ap (λ p. text_eq p (codes "vmess")) e,
          ap (λ p. text_eq p (codes "trojan")) e,
        )
        refl,
    rw (ap (λ p. credential p c) e) (trojan-password_of cs c m on (flow_for tp)),
  )
  settings_for-Lists i tp cs c (inr (inr (inr e))) m on = (
    build_hysteria2_settings cs,
    rw
        (
          ap (λ p. text_eq p (codes "vless")) e,
          ap (λ p. text_eq p (codes "vmess")) e,
          ap (λ p. text_eq p (codes "trojan")) e,
          ap (λ p. text_eq p (codes "shadowsocks")) e,
          ap (λ p. text_eq p (codes "hysteria2")) e,
        )
        refl,
    rw (ap (λ p. credential p c) e) (hysteria2-password_of cs c m on),
  )

  -- The inbound that is built for a row serves the client.
  abbrev Serves : InboundRow → ClientRow → Option Inbound → Type 0
  Serves i c o =
      (b : Inbound) × (o ≡ some b)
      × (b.tag ≡ i.tag)
      × In (credential i.protocol c) (secrets b.settings)

  inbound_with-Serves :
      (i : InboundRow) (c : ClientRow) (stream : StreamSetting) (o : Option Settings)
      → Lists i c o
      → Serves i c (inbound_with decoder i stream o)
  inbound_with-Serves i c stream o (st, e, m) =
      (inbound_of decoder i stream st, ap (inbound_with decoder i stream) e, refl, m)

  build_behind-Serves :
      (i : InboundRow) (tp : TransportParams) (cs : List ClientRow) (c : ClientRow)
      (r : Built StreamSetting)
      → is_ok r ≡ true
      → Lists i c (settings_for decoder i tp cs)
      → Serves i c (build_behind decoder i cs tp r)
  build_behind-Serves i tp cs c (err x) good l = absurd (ground (arith, good))
  build_behind-Serves i tp cs c (ok stream) good l =
      inbound_with-Serves i c stream (settings_for decoder i tp cs) l

  build_inbounds-Serves :
      (clients : List ClientRow) (is : List InboundRow) (i : InboundRow) (c : ClientRow)
      → In i is
      → Serves i c (build_inbound decoder clients i)
      → (b : Inbound) × In b (build_inbounds decoder clients is)
        × (b.tag ≡ i.tag)
        × In (credential i.protocol c) (secrets b.settings)
  unfolding build_inbounds
  build_inbounds-Serves clients [] i c m s = elim m [ ]
  build_inbounds-Serves clients (j ∷ is) i c (inl e) (b, built, tag, s) =
      (b, rw (ap (build_inbound decoder clients) (sym e) ∙ built) (inl refl), tag, s)
  build_inbounds-Serves clients (j ∷ is) i c (inr m) s =
      let (b, n, tag, k) = build_inbounds-Serves clients is i c m s in
      (b, further b (build_inbound decoder clients j) n, tag, k)
    where
      further :
          (x : Inbound) (o : Option Inbound)
          → In x (build_inbounds decoder clients is)
          → In x (with_built decoder o (build_inbounds decoder clients is))
      further x none n = n
      further x (some y) n = inr n

-- Every enabled client of an enabled inbound with VLESS, VMess, Trojan or Hysteria2 is served: if the
-- stored stream decodes to parameters that `buildStreamSetting` accepts, the configuration has an
-- inbound with the tag that accepts the client's secret.
pub generate_complete :
    (decoder : Decoder) (t : Tables) (outs : List OutboundRow) (rules : List RuleRow)
    (i : InboundRow) (c : ClientRow) (tp : TransportParams)
    → In i t.inbounds
    → i.enabled ≡ true
    → IsListed i.protocol
    → stored_params decoder i.stream ≡ some tp
    → is_ok (build_stream_setting tp) ≡ true
    → In c t.clients
    → c.inbound_id ≡ i.id
    → c.enabled ≡ true
    → (b : Inbound) × In b (generate decoder t outs rules).0.inbounds
      × (b.tag ≡ i.tag)
      × In (credential i.protocol c) (secrets b.settings)
unfolding generate build_inbound
generate_complete decoder t outs rules i c tp m on listed params good n own c_on =
    let cs = load_clients t.clients i.id in
    let (b, k, tag, s) =
      build_inbounds-Serves decoder t.clients (keep (λ j. j.enabled) t.inbounds) i c
        (In-keep (λ j. j.enabled) i t.inbounds m on)
        (rw params (
          build_behind-Serves decoder i tp cs c (build_stream_setting tp) good (
            settings_for-Lists decoder i tp cs c listed
              (In-keep (λ d. d.inbound_id == i.id) c t.clients n (ground (arith, own))) c_on))) in
    (b, inr k, tag, s)
