-- ===== src/Firewall/Forward/Rules.antt =====
-- internal/firewall/forward.go: what the FORWARD chain holds after `ApplyForward`, and which rules
-- are recognised as own.
use hexplus_v.Base.{
  ◌≡◌, refl, sym, ap, ◌∙◌, ◌≢◌, inl, inr, Bool, true, false, Option, List, [], ◌∷◌, arith,
  Bool-cases, Option-cases, All, All-join,
}
use hexplus_v.Firewall.{delete_copies}
use hexplus_v.Firewall.Forward.{
  is_iface, forward_specs, forward_specs_reversed, legacy_broad_accept, equal, is_egress_spec,
  is_our_forward_rule, install, apply_forward,
}
use hexplus_v.Firewall.Ports.{InsertsOne, DeletesOne, delete_copies-check}
use hexplus_v.Text.{text_ne, Text, codes, text_eq}

-- Whatever the interface, `RemoveForward` knows each rule of `ForwardSpecs` for its own.
pub forward_specs-own :
    (egress : Text)
    → is_iface egress ≡ true
    → All (λ spec. is_our_forward_rule spec ≡ true) (forward_specs egress)
unfolding is_our_forward_rule equal is_egress_spec text_eq
forward_specs-own egress h = (refl, (refl, (ground (arith, h), (refl, tt))))

first_word : List Text → Text
first_word [] = []
first_word (w ∷ ws) = w

legacy_apart :
    (egress : Text) → All (λ spec. legacy_broad_accept ≢ spec) (forward_specs_reversed egress)
unfolding text_eq first_word
legacy_apart egress = (
  λ e. text_ne (codes "-s") (codes "-o") refl (ap first_word e),
  (
    λ e. text_ne (codes "-s") (codes "-i") refl (ap first_word e),
    (
      λ e. text_ne (codes "-s") (codes "-i") refl (ap first_word e),
      (λ e. text_ne (codes "-s") (codes "-i") refl (ap first_word e), tt),
    ),
  ),
)

module _ {K : Type 0} (check : List Text → K → Bool)
    (insert delete : List Text → K → Option K) where
  install-keeps :
      (specs : List (List Text)) (k : K) (t : List Text)
      → InsertsOne check insert delete
      → check t k ≡ true
      → check t (install check insert delete specs k).0 ≡ true
  unfolding install
  install-keeps [] k t one h = h
  install-keeps (spec ∷ specs) k t one h = elim (Bool-cases (check spec k)) [
    | inl present ↦ rw present (install-keeps specs k t one h)
    | inr missing ↦ elim (Option-cases (insert spec k)) [
      | inl gone ↦ rw (install, missing, gone) h
      | inr (k', added) ↦
          rw (install, missing, added)
            (install-keeps specs k' t one ((one spec t k k' added).1 (inl h)))
    ]
  ]

  install-All :
      (specs : List (List Text)) (k end : K)
      → InsertsOne check insert delete
      → install check insert delete specs k ≡ (end, true)
      → All (λ spec. check spec end ≡ true) specs
  unfolding install
  install-All [] k end one e = tt
  install-All (spec ∷ specs) k end one e = elim (Bool-cases (check spec k)) [
    | inl present ↦
        let more : install check insert delete specs k ≡ (end, true) = rw present at e in
        (
          ap (λ (x : K × Bool). check spec x.0) (sym more) ∙ install-keeps specs k spec one present,
          install-All specs k end one more,
        )
    | inr missing ↦ elim (Option-cases (insert spec k)) [
      | inl gone ↦
          let more : ◌≡◌ {A = K × Bool} (k, false) (end, true) = rw (install, missing, gone) at e in
          let no : false ≡ true = ap (λ (x : K × Bool). x.1) more in absurd (ground (arith, no))
      | inr (k', added) ↦
          let more : install check insert delete specs k' ≡ (end, true) =
            rw (install, missing, added) at e in
          (
            ap (λ (x : K × Bool). check spec x.0) (sym more)
                ∙ install-keeps specs k' spec one ((one spec spec k k' added).1 (inr refl)),
            install-All specs k' end one more,
          )
    ]
  ]

  -- Where `iptables -I` and `-D` touch only their own rule and `ApplyForward` succeeds, the chain
  -- holds the mail blocks, the rule out of the egress interface and the rule for replies.
  pub apply_forward_installs :
      (egress : Text) (k : K)
      → InsertsOne check insert delete
      → DeletesOne check insert delete
      → (apply_forward check insert delete egress k).1 ≡ true
      → All
          (λ spec. check spec (apply_forward check insert delete egress k).0 ≡ true)
          (forward_specs_reversed egress)
  unfolding apply_forward
  apply_forward_installs egress k one gone h = elim (Bool-cases (is_iface egress)) [
    | inr odd ↦ ground (arith, rw odd at h)
    | inl fine ↦
        elim (Bool-cases (install check insert delete (forward_specs_reversed egress) k).1) [
          | inr broken ↦ ground (arith, rw (fine, broken) at h)
          | inl well ↦
              let k' = (install check insert delete (forward_specs_reversed egress) k).0 in
              rw (fine, well)
                (All-join (λ spec. check spec k' ≡ true) (λ spec. legacy_broad_accept ≢ spec)
                  (λ spec.
                    check spec (delete_copies check insert delete 32 legacy_broad_accept k') ≡ true)
                  (forward_specs_reversed egress)
                  (λ spec held apart.
                    delete_copies-check check insert delete 32 legacy_broad_accept spec k' gone
                      apart
                    ∙ held)
                  (install-All (forward_specs_reversed egress) k k' one (λ i. (k', well i)))
                  (legacy_apart egress))
        ]
  ]
