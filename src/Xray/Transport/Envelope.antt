-- ===== src/Xray/Transport/Envelope.antt =====
-- internal/xray/transport.go: when `buildStreamSetting` succeeds, and with what.
use hexplus_v.Base.{
  ◌≡◌, refl, ap, ◌∙◌, inl, inr, Bool, true, false, ◌&&◌, ◌||◌, not, none, some, [], ◌∷◌, arith,
  if◌then◌else◌, Bool-cases, any,
}
use hexplus_v.Text.{Text, codes, text_eq, text_eq_iff}
use hexplus_v.Xray.Transport.{
  defaulted, build_stream_setting, plain_stream, tls_of, reality_of, with_security, ws_headers,
  TransportParams, StreamSetting, Built, ok, err, with_network, is_empty,
}

abbrev pub is_network : Text → Bool
is_network n = any (text_eq n) (
    codes "tcp"
    ∷ codes "ws"
    ∷ codes "grpc"
    ∷ codes "httpupgrade"
    ∷ codes "xhttp"
    ∷ codes "kcp"
    ∷ [])

-- The security has what it needs.
abbrev pub is_secured : TransportParams → Bool
is_secured p =
    any (text_eq p.security) (codes "none" ∷ codes "tls" ∷ [])
    || (text_eq p.security (codes "reality")
        && not (is_empty p.reality_private_key)
        && not (is_empty p.reality_dest))

abbrev pub is_ok : Built StreamSetting → Bool
is_ok (ok s) = true
is_ok (err e) = false

with_network-is_ok :
    (p : TransportParams) (s : StreamSetting) → is_ok (with_network p s) ≡ is_network p.network
unfolding with_network
with_network-is_ok p s = ground arith

with_security-is_ok :
    (p : TransportParams) (r : Built StreamSetting)
    → is_ok (with_security p r) ≡ is_ok r && is_secured p
unfolding with_security
with_security-is_ok p (err e) = refl
with_security-is_ok p (ok s) = ground arith

-- What the envelope of these parameters is to hold.
pub record IsEnvelope (p : TransportParams) (s : StreamSetting) : Type 0 where
  pub network : s.network ≡ p.network
  pub security : s.security ≡ (if text_eq p.security (codes "none") then [] else p.security)
  pub tls : s.tls ≡ (if text_eq p.security (codes "tls") then some (tls_of p) else none)
  pub reality :
      s.reality ≡ (if text_eq p.security (codes "reality") then some (reality_of p) else none)
  pub ws : s.ws ≡ (
      if text_eq p.network (codes "ws")
      then some (record { path = p.path; headers = ws_headers p.host })
      else none)
  pub grpc : s.grpc ≡ (if text_eq p.network (codes "grpc") then some p.service_name else none)

-- The same, the blocks of the security still to come.
record IsCarried (p : TransportParams) (s : StreamSetting) : Type 0 where
  network : s.network ≡ p.network
  security : s.security ≡ (if text_eq p.security (codes "none") then [] else p.security)
  tls : s.tls ≡ none
  reality : s.reality ≡ none
  ws : s.ws ≡ (
      if text_eq p.network (codes "ws")
      then some (record { path = p.path; headers = ws_headers p.host })
      else none)
  grpc : s.grpc ≡ (if text_eq p.network (codes "grpc") then some p.service_name else none)

differ : (n a b : Text) → text_eq n a ≡ true → text_eq a b ≡ false → text_eq n b ≡ false
differ n a b e h = ap (λ t. text_eq t b) ((text_eq_iff n a).0 e) ∙ h

with_network-IsCarried :
    (p : TransportParams) (s : StreamSetting)
    → with_network p (plain_stream p) ≡ ok s
    → IsCarried p s
unfolding with_network
with_network-IsCarried p s h = elim (Bool-cases (text_eq p.network (codes "ws"))) [
  | inl e ↦ ground (
    arith,
    h,
    e,
    differ p.network (codes "ws") (codes "tcp") e (unfold text_eq in refl),
    differ p.network (codes "ws") (codes "grpc") e (unfold text_eq in refl),
  )
  | inr e ↦ elim (Bool-cases (text_eq p.network (codes "grpc"))) [
    | inl e' ↦
        ground (
          arith,
          h,
          e,
          e',
          differ p.network (codes "grpc") (codes "tcp") e' (unfold text_eq in refl),
        )
    | inr e' ↦ ground (arith, h, e, e')
  ]
]

with_security-IsEnvelope :
    (p : TransportParams) (r : Built StreamSetting) (s : StreamSetting)
    → ((t : StreamSetting) → r ≡ ok t → IsCarried p t)
    → with_security p r ≡ ok s
    → IsEnvelope p s
unfolding with_security
with_security-IsEnvelope p (err e) s carried h = absurd (ground (arith, h))
with_security-IsEnvelope p (ok t) s carried h =
    let c = carried t refl in
    elim (Bool-cases (text_eq p.security (codes "tls"))) [
      | inl e ↦ ground (
        arith,
        h,
        e,
        c,
        differ p.security (codes "tls") (codes "none") e (unfold text_eq in refl),
        differ p.security (codes "tls") (codes "reality") e (unfold text_eq in refl),
      )
      | inr e ↦ elim (Bool-cases (text_eq p.security (codes "reality"))) [
        | inl e' ↦ ground (
          arith,
          h,
          e,
          e',
          c,
          differ p.security (codes "reality") (codes "none") e' (unfold text_eq in refl),
        )
        | inr e' ↦ ground (arith, h, e, e', c)
      ]
    ]

-- `buildStreamSetting` succeeds exactly for a known network, tcp if it is empty, and a security that is
-- none or empty, tls, or reality with a private key and a destination; and then the network and the
-- security are those of the parameters, TLS and REALITY settings are there exactly with that security,
-- and the settings of ws and grpc exactly with that network.
pub build_stream_setting-IsEnvelope :
    (p : TransportParams)
    → (is_ok (build_stream_setting p)
        ≡ is_network (defaulted p).network && is_secured (defaulted p))
      × ((s : StreamSetting) → build_stream_setting p ≡ ok s → IsEnvelope (defaulted p) s)
unfolding build_stream_setting
build_stream_setting-IsEnvelope p =
    let q = defaulted p in
    (
      with_security-is_ok q (with_network q (plain_stream q))
          ∙ ap (λ b. b && is_secured q) (with_network-is_ok q (plain_stream q)),
      λ s h.
          with_security-IsEnvelope q (with_network q (plain_stream q)) s
            (λ t e. with_network-IsCarried q t e) h,
    )
