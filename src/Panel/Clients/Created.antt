-- ===== src/Panel/Clients/Created.antt =====
-- internal/panel/api_clients.go and internal/xray/generate.go: that a client which was created is served.
use hexplus_v.Base.{
  ℕ, ◌+◌, ◌≡◌, refl, sym, inl, inr, Bool, true, false, ◌||◌, Option, none, some, List, [], ◌∷◌,
  ◌++◌, arith, ◌==◌, if◌then◌else◌, Bool-cases,
}
use mathlib.Core.Option.{some-injective}
use hexplus_v.Base.Members.{In}
use hexplus_v.Panel.Rows.{ClientRow, InboundRow, Tables}
use hexplus_v.Panel.Clients.{
  ClientInput, Reply, Reply.bad_request, Reply.not_found, Reply.server_error, Reply.created,
  Reply.accepted, Reply.done, path_id, enabled_or_on, is_unique, constrained,
}
use hexplus_v.Panel.Clients.Create.{
  Draws, with_password, needs_password, fill_identity, new_client, insert_client, create_token,
  create_filled, create_for, inbound_at, create_client,
}
use hexplus_v.Text.{Text, codes, text_eq}
use hexplus_v.Xray.Transport.{TransportParams, is_empty, build_stream_setting}
use hexplus_v.Xray.Transport.Envelope.{is_ok}
use hexplus_v.Xray.Settings.Secrets.{secrets}
use hexplus_v.Xray.Config.{Decoder, Inbound, OutboundRow, RuleRow}
use hexplus_v.Xray.Generate.{stored_params, generate}
use hexplus_v.Xray.Generate.Served.{credential}
use hexplus_v.Xray.Generate.Complete.{IsListed, generate_complete}

abbrev pub is_success : Reply → Bool
is_success bad_request = false
is_success not_found = false
is_success server_error = false
is_success (created id) = true
is_success (accepted id) = true
is_success (done id) = true

-- What is drawn is not empty.
pub record AreFilled (d : Draws) : Type 0 where
  pub uuid : is_empty d.uuid ≡ false
  pub password : (p : Text) → d.password ≡ some p → is_empty p ≡ false

-- The credentials that the protocols with a list of clients take.
abbrev secret_of : Text → ClientInput → Text
secret_of p f =
    if text_eq p (codes "vless") || text_eq p (codes "vmess") then f.uuid else f.password

-- The filled input has the credential, and the rest of the input.
abbrev IsFilled : Text → ClientInput → Option ClientInput → Type 0
IsFilled p input o =
    (f : ClientInput)
    → o ≡ some f
    → (is_empty (secret_of p f) ≡ false) × (f.email ≡ input.email) × (f.enabled ≡ input.enabled)

module _ (d : Draws) (filled : AreFilled d) (input : ClientInput) where
  uuid-IsFilled :
      (p : Text)
      → (text_eq p (codes "vless") || text_eq p (codes "vmess")) ≡ true
      → IsFilled p input (fill_identity d input p)
  unfolding fill_identity
  uuid-IsFilled p e f h = elim (Bool-cases (is_empty input.uuid)) [
    | inl k ↦
        let same = some-injective (record input { uuid = d.uuid }) f (rw (e, k) at h) in
        rw (e, ← same) (filled.uuid, refl, refl)
    | inr k ↦ let same = some-injective input f (rw (e, k) at h) in rw (e, ← same) (k, refl, refl)
  ]

  needs_password-IsFilled :
      (p : Text)
      → (text_eq p (codes "vless") || text_eq p (codes "vmess")) ≡ false
      → IsFilled p input (needs_password d input)
  needs_password-IsFilled p e f h = elim (Bool-cases (is_empty input.password)) [
    | inl k ↦ drawn d.password refl (rw k at h)
    | inr k ↦ let same = some-injective input f (rw k at h) in rw (e, ← same) (k, refl, refl)
  ]
    where
      drawn :
          (o : Option Text)
          → d.password ≡ o
          → with_password input o ≡ some f
          → (is_empty (secret_of p f) ≡ false)
            × (f.email ≡ input.email)
            × (f.enabled ≡ input.enabled)
      drawn none k l = absurd (ground (arith, l))
      drawn (some s) k l =
          let same = some-injective (record input { password = s }) f l in
          rw (e, ← same) (filled.password s k, refl, refl)

  fill_identity-IsFilled : (p : Text) → IsListed p → IsFilled p input (fill_identity d input p)
  unfolding fill_identity text_eq
  fill_identity-IsFilled p (inl e) f h = uuid-IsFilled p (rw e refl) f h
  fill_identity-IsFilled p (inr (inl e)) f h = uuid-IsFilled p (rw e refl) f h
  fill_identity-IsFilled p (inr (inr (inl e))) f h =
      needs_password-IsFilled p (rw e refl) f (rw e at h)
  fill_identity-IsFilled p (inr (inr (inr e))) f h =
      needs_password-IsFilled p (rw e refl) f (rw e at h)

inbound_at-In :
    (id : ℕ) (is : List InboundRow) (i : InboundRow) → inbound_at id is ≡ some i → In i is
unfolding inbound_at
inbound_at-In id [] i e = absurd (ground (arith, e))
inbound_at-In id (j ∷ is) i e = elim (Bool-cases (j.id == id)) [
  | inl k ↦ inl (sym (some-injective j i (rw k at e)))
  | inr k ↦ inr (inbound_at-In id is i (rw k at e))
]

append-In : (c : ClientRow) (cs : List ClientRow) → In c (cs ++ c ∷ [])
append-In c [] = inl refl
append-In c (x ∷ cs) = inr (append-In c cs)

module _ (d : Draws) (reload : Bool) (now : ℕ) (t : Tables) where
  -- The row that a successful request adds.
  abbrev Adds : InboundRow → Option ClientInput → Tables → Type 0
  Adds i o t' =
      (f : ClientInput) × (token : Text) × (o ≡ some f)
      × In (new_client (t.last_client + 1) i.id i.protocol token f now) t'.clients
      × (t'.inbounds ≡ t.inbounds)

  insert_client-Adds :
      (i : InboundRow) (token : Text) (f : ClientInput)
      → is_success (insert_client reload now i.id i.protocol token f t).1 ≡ true
      → Adds i (some f) (insert_client reload now i.id i.protocol token f t).0
  unfolding constrained
  insert_client-Adds i token f h =
      let c = new_client (t.last_client + 1) i.id i.protocol token f now in
      elim (Bool-cases (is_unique (t.clients ++ c ∷ []))) [
        | inl e ↦ rw e (f, token, refl, append-In c t.clients, refl)
        | inr e ↦ absurd (ground (arith, rw e at h))
      ]

  create_token-Adds :
      (i : InboundRow) (o : Option Text) (f : ClientInput)
      → is_success (create_token reload now i.id i.protocol o f t).1 ≡ true
      → Adds i (some f) (create_token reload now i.id i.protocol o f t).0
  create_token-Adds i none f h = absurd (ground (arith, h))
  create_token-Adds i (some token) f h = insert_client-Adds i token f h

  create_filled-Adds :
      (i : InboundRow) (o : Option ClientInput)
      → is_success (create_filled d reload now i.id i.protocol o t).1 ≡ true
      → Adds i o (create_filled d reload now i.id i.protocol o t).0
  create_filled-Adds i none h = absurd (ground (arith, h))
  create_filled-Adds i (some f) h = create_token-Adds i d.token f h

  create_for-Adds :
      (i : InboundRow) (input : ClientInput)
      → is_success (create_for d reload now (some i) (some input) t).1 ≡ true
      → Adds i
          (fill_identity d input i.protocol)
          (create_for d reload now (some i) (some input) t).0
  create_for-Adds i input h = elim (Bool-cases (is_empty input.email)) [
    | inl e ↦ absurd (ground (arith, rw e at h))
    | inr e ↦ rw e (create_filled-Adds i (fill_identity d input i.protocol) (rw e at h))
  ]

listed-secret_of :
    (p : Text) (f : ClientInput) (c : ClientRow)
    → IsListed p
    → c.uuid ≡ f.uuid
    → c.password ≡ f.password
    → credential p c ≡ secret_of p f
unfolding credential text_eq
listed-secret_of p f c (inl e) u w = rw (e, u) refl
listed-secret_of p f c (inr (inl e)) u w = rw (e, u) refl
listed-secret_of p f c (inr (inr (inl e))) u w = rw (e, w) refl
listed-secret_of p f c (inr (inr (inr e))) u w = rw (e, w) refl

-- If the creation of a client that is not disabled succeeds, for an enabled inbound with VLESS, VMess,
-- Trojan or Hysteria2 whose stored stream decodes to parameters that `buildStreamSetting` accepts, and
-- no credential is drawn empty, then the next configuration has an inbound with the tag of the row which
-- accepts the credential of the new client, and this credential is not empty.
pub create_client_served :
    (decoder : Decoder) (d : Draws) (reload : Bool) (now n : ℕ) (raw : Text) (input : ClientInput)
    (t : Tables) (outs : List OutboundRow) (rules : List RuleRow) (i : InboundRow)
    (tp : TransportParams)
    → AreFilled d
    → path_id raw ≡ some n
    → inbound_at n t.inbounds ≡ some i
    → i.enabled ≡ true
    → IsListed i.protocol
    → stored_params decoder i.stream ≡ some tp
    → is_ok (build_stream_setting tp) ≡ true
    → enabled_or_on input.enabled ≡ true
    → is_success (create_client d reload now raw (some input) t).1 ≡ true
    → (c : ClientRow) × In c (create_client d reload now raw (some input) t).0.clients
      × (c.email ≡ input.email)
      × (is_empty (credential i.protocol c) ≡ false)
      × (b : Inbound) × In b
          (generate decoder (create_client d reload now raw (some input) t).0 outs rules).0.inbounds
      × (b.tag ≡ i.tag)
      × In (credential i.protocol c) (secrets b.settings)
unfolding create_client
create_client_served decoder d reload now n raw input t outs rules i tp drawn path row on listed
      params good wanted success =
    let t' = (create_for d reload now (some i) (some input) t).0 in
    let (f, token, e, m, same) =
      create_for-Adds d reload now t i input (rw (path, row) at success) in
    let (filled, email, flag) = fill_identity-IsFilled d drawn input i.protocol listed f e in
    let c = new_client (t.last_client + 1) i.id i.protocol token f now in
    let (b, k, tag, s) =
      generate_complete decoder t' outs rules i c tp (rw same (inbound_at-In n t.inbounds i row)) on
        listed params good m refl (rw flag wanted) in
    rw (path, row)
      (c, m, email, rw (listed-secret_of i.protocol f c listed refl refl) filled, b, k, tag, s)
