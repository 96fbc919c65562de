-- ===== src/Firewall/Ports.antt =====
-- internal/firewall/input.go with internal/portclaim/portclaim.go: what opening, closing and moving
-- a port does to the ports of the other services.
use hexplus_v.Base.{
  ℕ, zero, suc, ◌≤◌, ◌≡◌, refl, sym, ap, ◌∙◌, ◌≢◌, ◌↔◌, ◌⊎◌, inl, inr, Bool, true, false, Option,
  some, List, [], ◌∷◌, arith, Bool-cases, Option-cases, any, All, All-imp, All-join,
}
use hexplus_v.Firewall.{
  input_spec, valid_input, apply_input, delete_copies, remove_input, open_port, close_port,
}
use hexplus_v.Portclaim.{Claim, Configs, all_claims, held_by_other, is_held}
use hexplus_v.Text.{Text, text_eq, text_eq_iff}
use hexplus_v.Text.Number.{Parsed, format, parse_uint, parse_uint-format, uint_value, max_u64}

-- The protocol and the port's digits of a rule.
proto_of : List Text → Text
proto_of (p ∷ proto ∷ rest) = proto
proto_of (p ∷ []) = []
proto_of [] = []

port_of : List Text → Text
port_of (p ∷ proto ∷ d ∷ port ∷ rest) = port
port_of (p ∷ proto ∷ d ∷ []) = []
port_of (p ∷ proto ∷ []) = []
port_of (p ∷ []) = []
port_of [] = []

number_of : Parsed → ℕ
number_of p = uint_value p

format_injective : (a b : ℕ) → a ≤ max_u64 → b ≤ max_u64 → format a ≡ format b → a ≡ b
unfolding number_of
format_injective a b low high e =
    ap number_of (sym (parse_uint-format a low) ∙ ap parse_uint e ∙ parse_uint-format b high)

input_spec_apart :
    (p q : Text) (a b : ℕ)
    → a ≤ max_u64
    → b ≤ max_u64
    → (p ≢ q) ⊎ (a ≢ b)
    → input_spec p a ≢ input_spec q b
unfolding proto_of port_of
input_spec_apart p q a b low high (inl apart) = λ e. apart (ap proto_of e)
input_spec_apart p q a b low high (inr apart) =
    λ e. apart (format_injective a b low high (ap port_of e))

valid_small : (proto : Text) (port : ℕ) → valid_input proto port ≡ true → port ≤ max_u64
unfolding valid_input
valid_small proto port h = ground (arith, h)

any_none : (p : Claim → Bool) (cs : List Claim) → any p cs ≡ false → All (λ c. p c ≡ false) cs
any_none p [] h = tt
any_none p (c ∷ cs) h = (ground (arith, h), any_none p cs (ground (arith, h)))

module _ {K : Type 0} (check : List Text → K → Bool)
    (insert delete : List Text → K → Option K) where
  -- `iptables -D` leaves the other rules alone.
  abbrev pub DeletesOne : Type 0
  DeletesOne = (s t : List Text) (k k' : K) → delete s k ≡ some k' → s ≢ t → check t k' ≡ check t k

  -- `iptables -I` adds the rule and leaves the other rules alone.
  abbrev pub InsertsOne : Type 0
  InsertsOne =
      (s t : List Text) (k k' : K)
      → insert s k ≡ some k'
      → (check t k' ≡ true) ↔ ((check t k ≡ true) ⊎ (s ≡ t))

  pub delete_copies-check :
      (n : ℕ) (s t : List Text) (k : K)
      → DeletesOne
      → s ≢ t
      → check t (delete_copies check insert delete n s k) ≡ check t k
  unfolding delete_copies
  delete_copies-check zero s t k one apart = refl
  delete_copies-check (suc n) s t k one apart = elim (Option-cases (delete s k)) [
    | inl gone ↦ rw (delete_copies, gone) refl
    | inr (k', done) ↦
        rw (delete_copies, done) (delete_copies-check n s t k' one apart ∙ one s t k k' done apart)
  ]

  abbrev Spared : Configs → Text → K → K → Claim → Type 0
  Spared configs self k k' c =
      (c.owner ≡ self)
      ⊎ (check (input_spec c.proto c.port) k' ≡ check (input_spec c.proto c.port) k)

  spares_claim :
      (configs : Configs) (self proto : Text) (port : ℕ) (k : K)
      → DeletesOne
      → valid_input proto port ≡ true
      → (c : Claim) → is_held self proto port c ≡ false
      → c.port ≤ max_u64
      → Spared configs self k (delete_copies check insert delete 32 (input_spec proto port) k) c
  spares_claim configs self proto port k one good c free fits =
      let small : port ≤ max_u64 = valid_small proto port good in
      elim (Bool-cases (text_eq c.owner self)) [
        | inl mine ↦ inl ((text_eq_iff c.owner self).0 mine)
        | inr theirs ↦
            let elsewhere : (proto ≢ c.proto) ⊎ (port ≢ c.port) =
              elim (Bool-cases (text_eq c.proto proto)) [
                | inl same ↦ inr (ground (arith, free, theirs, same))
                | inr other ↦ inl (λ e. ground (arith, other, text_eq_iff c.proto proto, e))
              ] in
            inr (
              delete_copies-check 32 (input_spec proto port) (input_spec c.proto c.port) k one
                (input_spec_apart proto c.proto port c.port small fits elsewhere))
      ]

  -- Where `iptables -D` leaves the other rules alone, and no claimed port is beyond 64 bits, closing a
  -- service's port leaves the rule of every port that another service claims as it was.
  pub close_port_spares :
      (configs : Configs) (self proto : Text) (port : ℕ) (k : K) (rc_local : Text)
      → DeletesOne
      → All (λ c. c.port ≤ max_u64) (all_claims configs)
      → All
          (λ c.
            (c.owner ≡ self)
            ⊎ (check
                  (input_spec c.proto c.port)
                  (close_port check insert delete
                    (held_by_other configs self)
                    proto
                    port
                    k
                    rc_local).0
                ≡ check (input_spec c.proto c.port) k))
          (all_claims configs)
  unfolding close_port remove_input held_by_other
  close_port_spares configs self proto port k rc_local one ports =
      elim (Bool-cases (valid_input proto port)) [
        | inr bad ↦ rw bad (
            All-imp (λ c. c.port ≤ max_u64) (Spared configs self k k) (all_claims configs)
              (λ c _. inr refl) ports)
        | inl good ↦ elim (Bool-cases (any (is_held self proto port) (all_claims configs))) [
          | inl held ↦
              rw (good, held)
                (All-imp (λ c. c.port ≤ max_u64) (Spared configs self k k) (all_claims configs)
                  (λ c _. inr refl) ports)
          | inr free ↦
              rw (good, free)
                (All-join (λ c. is_held self proto port c ≡ false) (λ c. c.port ≤ max_u64)
                  (Spared configs self k
                    (delete_copies check insert delete 32 (input_spec proto port) k))
                  (all_claims configs) (spares_claim configs self proto port k one good)
                  (any_none (is_held self proto port) (all_claims configs) free) ports)
        ]
      ]

  apply_input_opens :
      (proto : Text) (port : ℕ) (k : K) (t : List Text)
      → InsertsOne
      → (apply_input check insert delete proto port k).1 ≡ true
      → (check (input_spec proto port) (apply_input check insert delete proto port k).0 ≡ true)
        × ((check t k ≡ false) ⊎ (check t (apply_input check insert delete proto port k).0 ≡ true))
  unfolding apply_input
  apply_input_opens proto port k t one h = elim (Bool-cases (valid_input proto port)) [
    | inr bad ↦ ground (arith, rw bad at h)
    | inl good ↦ elim (Bool-cases (check (input_spec proto port) k)) [
      | inl there_now ↦
          rw (good, there_now)
            (there_now, elim (Bool-cases (check t k)) [ inl e ↦ inr e | inr e ↦ inl e ])
      | inr closed ↦ elim (Option-cases (insert (input_spec proto port) k)) [
        | inl gone ↦ ground (arith, rw (apply_input, good, closed, gone) at h)
        | inr (k', done) ↦
            rw (apply_input, good, closed, done)
              (
                (one (input_spec proto port) (input_spec proto port) k k' done).1 (inr refl),
                elim (Bool-cases (check t k)) [
                  | inl e ↦ inr ((one (input_spec proto port) t k k' done).1 (inl e))
                  | inr e ↦ inl e
                ],
              )
      ]
    ]
  ]

  -- Where `iptables -I` adds its rule and leaves the others alone, a port that `OpenPort` reports as
  -- open is open, and no rule is lost.
  pub open_port_opens :
      (proto : Text) (port : ℕ) (k : K) (rc_local : Text) (t : List Text)
      → InsertsOne
      → (open_port check insert delete proto port k rc_local).2 ≡ true
      → (check (input_spec proto port) (open_port check insert delete proto port k rc_local).0
          ≡ true)
        × ((check t k ≡ false)
            ⊎ (check t (open_port check insert delete proto port k rc_local).0 ≡ true))
  unfolding open_port apply_input
  open_port_opens proto port k rc_local t one h =
      elim (Bool-cases (apply_input check insert delete proto port k).1) [
        | inl well ↦ rw well (apply_input_opens proto port k t one well)
        | inr ill ↦ ground (arith, rw ill at h)
      ]
