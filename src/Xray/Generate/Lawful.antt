-- ===== src/Xray/Generate/Lawful.antt =====
-- internal/xray/generate.go behind internal/panel/enforcer.go: the configuration after a sweep.
use hexplus_v.Base.{
  ℕ, ◌≡◌, refl, sym, ap, ◌∙◌, inl, inr, true, false, List, map, arith, ◌==◌, Bool-cases, drop, keep,
}
use hexplus_v.Base.Members.{In, keep-In, map-In}
use hexplus_v.Panel.Rows.{ClientRow, InboundRow, Tables}
use hexplus_v.Panel.Enforcer.{enforce_once}
use hexplus_v.Panel.Enforcer.Sweep.{MayServe, swept, is_flipped, enforce_once-swept}
use hexplus_v.Text.{Text}
use hexplus_v.Xray.Settings.Secrets.{secrets, IsOwned}
use hexplus_v.Xray.Generate.{generate, load_clients}
use hexplus_v.Xray.Config.{Decoder, Inbound, OutboundRow, RuleRow}
use hexplus_v.Xray.Generate.Served.{build_inbounds-In, credential}

-- A client of the row that may still be served, with this secret.
pub record IsEntitled (now : ℕ) (cs : List ClientRow) (i : InboundRow) (s : Text) (c : ClientRow)
    : Type 0 where
  pub member : In c cs
  pub own : c.inbound_id ≡ i.id
  pub on : c.enabled ≡ true
  pub serves : MayServe now c
  pub secret : s ≡ credential i.protocol c

-- An inbound of the configuration stands for an enabled row, and admits only entitled clients.
pub record IsLawful (now : ℕ) (t : Tables) (b : Inbound) (i : InboundRow) : Type 0 where
  pub row : In i t.inbounds
  pub row_on : i.enabled ≡ true
  pub tag : b.tag ≡ i.tag
  pub protocol : b.protocol ≡ i.protocol
  pub port : b.port ≡ i.port
  pub entitled :
      (s : Text) → In s (secrets b.settings) → (c : ClientRow) × IsEntitled now t.clients i s c

swept_same :
    (now : ℕ) (c : ClientRow) → (swept now c).enabled ≡ true → (swept now c ≡ c) × MayServe now c
swept_same now c h = elim (Bool-cases c.enabled) [
  | inl e ↦
      let unflipped : is_flipped now c ≡ false = ground (arith, h, e) in
      (rw unflipped refl, ground (arith, e, unflipped))
  | inr e ↦ absurd (ground (arith, h, e))
]

==_eq : (a b : ℕ) → a == b ≡ true → a ≡ b
==_eq a b h = ground arith

swept-IsEntitled :
    (now : ℕ) (cs : List ClientRow) (i : InboundRow) (s : Text)
    → IsOwned (credential i.protocol) (load_clients (map (swept now) cs) i.id) s
    → (c : ClientRow) × IsEntitled now cs i s c
swept-IsEntitled now cs i s (d, m, on, e) =
    let (n, own) = keep-In (λ c. c.inbound_id == i.id) d (map (swept now) cs) m in
    let (c, o, e') = map-In (swept now) d cs n in
    let (same, serves) = swept_same now c (ap (λ x. x.enabled) (sym e') ∙ on) in
    let eq : d ≡ c = e' ∙ same in
    (
      c,
      record {
        member = o;
        own = ap (λ x. x.inbound_id) (sym eq) ∙ ==_eq d.inbound_id i.id own;
        on = ap (λ x. x.enabled) (sym eq) ∙ on;
        serves = serves;
        secret = e ∙ ap (credential i.protocol) eq;
      },
    )

-- After a sweep of the enforcer, every inbound of the generated configuration but the one of the
-- statistics stands for an enabled row of the table with its tag, protocol and port, and each secret
-- that it accepts is that of a client of this row that is enabled, has not expired and is within its
-- quota.
pub generate-IsLawful :
    (decoder : Decoder) (now : ℕ) (t : Tables) (outs : List OutboundRow) (rules : List RuleRow)
    (b : Inbound)
    → In b (
        drop 1
          (generate decoder
            (record t { clients = (enforce_once now t.clients).0 })
            outs
            rules).0.inbounds)
    → (i : InboundRow) × IsLawful now t b i
unfolding generate
generate-IsLawful decoder now t outs rules b m =
    let (i, n, f) =
      build_inbounds-In decoder (enforce_once now t.clients).0 (keep (λ j. j.enabled) t.inbounds) b
        m in
    let (row, row_on) = keep-In (λ j. j.enabled) i t.inbounds n in
    (
      i,
      record {
        row = row;
        row_on = row_on;
        tag = f.tag;
        protocol = f.protocol;
        port = f.port;
        entitled = λ s k.
            swept-IsEntitled now t.clients i s
              (rw (enforce_once-swept now t.clients).0 at (f.owned s k));
      },
    )
