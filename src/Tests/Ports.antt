-- ===== src/Tests/Ports.antt =====
-- internal/ovpninstance, internal/portclaim and internal/firewall: a registry of two instances, and a
-- chain of rules as a list, in which `iptables` finds, adds and deletes.
use mathlib.Core.Option.{some-injective}
use hexplus_v.Base.{
  ℕ, ◌≤◌, ◌<◌, ◌≡◌, refl, sym, ◌↔◌, ◌⊎◌, inl, inr, Bool, true, false, ◌&&◌, Option, none, some,
  List, [], ◌∷◌, arith, if◌then◌else◌, Bool-cases, Option-cases, any, All,
}
use hexplus_v.Firewall.{input_spec, close_port}
use hexplus_v.Firewall.Ports.{DeletesOne, InsertsOne, close_port_spares}
use hexplus_v.Ovpninstance.{Instance, Writes, is_used, next_id}
use hexplus_v.Ovpninstance.Registry.{
  IsRegistry, Command, add_one, remove_one, run_all, run_all-IsRegistry,
}
use hexplus_v.Ovpninstance.NextId.{next_id_lem}
use hexplus_v.Portclaim.{Claim, Configs, all_claims, held_by_other}
use hexplus_v.Text.{Text, codes, text_eq, text_eq_iff}

abbrev second : Instance
second = record { id = 2; port = 8443; proto = codes "tcp"; worker = false }

abbrev third : Instance
third = record { id = 3; port = 1195; proto = codes "udp"; worker = false }

next_id_lem_example :
    (id : ℕ) × (next_id (second ∷ third ∷ []) ≡ some id)
    × (2 ≤ id)
    × (is_used id (second ∷ third ∷ []) ≡ false)
    × ((k : ℕ) → 2 ≤ k → k < id → is_used k (second ∷ third ∷ []) ≡ true)
next_id_lem_example = next_id_lem (second ∷ third ∷ [])

abbrev all_well : Writes
all_well = record {
  conf = true;
  duplicate_cn = true;
  guarded = false;
  injected = true;
  unit = true;
  registry = true;
}

abbrev requests : List Command
requests =
    add_one 8443 (codes "tcp") false all_well
    ∷ add_one 1195 (codes "udp") false all_well
    ∷ remove_one 2 true
    ∷ add_one 9443 (codes "tcp") true all_well
    ∷ []

run_all-IsRegistry_example : IsRegistry (run_all requests [])
run_all-IsRegistry_example = run_all-IsRegistry requests [] (tt, λ id. omega arith)

-- Two rules are the same.
unfoldable pub same_spec : List Text → List Text → Bool
same_spec [] [] = true
same_spec (a ∷ s) (b ∷ t) = text_eq a b && same_spec s t
same_spec _ _ = false

same_spec_iff : (s t : List Text) → (same_spec s t ≡ true) ↔ (s ≡ t)
unfolding same_spec
same_spec_iff [] [] = (λ h. refl, λ h. refl)
same_spec_iff [] (b ∷ t) = ground arith
same_spec_iff (a ∷ s) [] = ground arith
same_spec_iff (a ∷ s) (b ∷ t) = ground (arith, text_eq_iff a b, same_spec_iff s t)

unfoldable pub chain_has : List Text → List (List Text) → Bool
chain_has s = any (same_spec s)

unfoldable pub chain_insert : List Text → List (List Text) → Option (List (List Text))
chain_insert s chain = some (s ∷ chain)

unfoldable pub chain_delete : List Text → List (List Text) → Option (List (List Text))
chain_delete s [] = none
chain_delete s (t ∷ chain) =
    let rest = chain_delete s chain in
    if same_spec s t then some chain else elim rest [ none ↦ none | some c ↦ some (t ∷ c) ]

pub chain_insert-InsertsOne : InsertsOne chain_has chain_insert chain_delete
unfolding chain_has chain_insert
chain_insert-InsertsOne s t k k' e =
    let same : s ∷ k ≡ k' = some-injective (s ∷ k) k' e in
    rw (sym same) (ground (arith, same_spec_iff t s))

pub chain_delete-DeletesOne : DeletesOne chain_has chain_insert chain_delete
unfolding chain_has chain_delete
chain_delete-DeletesOne s t [] k' e apart = ground (arith, e)
chain_delete-DeletesOne s t (u ∷ k) k' e apart = elim (Bool-cases (same_spec s u)) [
  | inl hit ↦
      let rest : k ≡ k' = some-injective k k' (rw hit at e) in
      rw (sym rest) (ground (arith, apart, hit, same_spec_iff s u, same_spec_iff t u))
  | inr miss ↦ elim (Option-cases (chain_delete s k)) [
    | inl gone ↦ ground (arith, rw (miss, chain_delete, gone) at e)
    | inr (c, done) ↦
        let rest : u ∷ c ≡ k' = some-injective (u ∷ c) k' (rw (miss, chain_delete, done) at e) in
        rw (sym rest) (ground (arith, chain_delete-DeletesOne s t k c done apart))
  ]
]

abbrev services : Configs
services = record {
  server_listen = some (codes "udp", 1194);
  instances = second ∷ [];
  sslh_port = some 443;
  ssl_port = none;
  proxies = some ((codes "web", 8080) ∷ []);
}

abbrev chain : List (List Text)
chain = input_spec (codes "tcp") 443 ∷ input_spec (codes "tcp") 8443 ∷ []

close_port_spares_example :
    All
      (λ c.
        (c.owner ≡ codes "sslhmux")
        ⊎ (chain_has
              (input_spec c.proto c.port)
              (close_port chain_has chain_insert chain_delete
                (held_by_other services (codes "sslhmux"))
                (codes "tcp")
                443
                chain
                []).0
            ≡ chain_has (input_spec c.proto c.port) chain))
      (all_claims services)
unfolding all_claims hexplus_v.Portclaim.tcp_claim hexplus_v.Portclaim.proxy_claims
close_port_spares_example =
    close_port_spares chain_has chain_insert chain_delete services (codes "sslhmux") (codes "tcp")
      443 chain [] chain_delete-DeletesOne (omega arith)
