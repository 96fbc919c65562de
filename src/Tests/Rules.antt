-- ===== src/Tests/Rules.antt =====
-- internal/firewall/forward.go and internal/ovpninstance/nat.go: rules in a chain that is a list, in
-- which `iptables` finds, adds and deletes.
use hexplus_v.Base.{
  ℕ, zero, suc, ◌+◌, ◌≡◌, refl, inl, inr, true, List, [], ◌==◌, if◌then◌else◌, All,
}
use hexplus_v.Firewall.Forward.{
  forward_specs, forward_specs_reversed, is_our_forward_rule, apply_forward,
}
use hexplus_v.Firewall.Forward.Rules.{apply_forward_installs}
use hexplus_v.Ovpninstance.Nat.{Ending, done, absent}
use hexplus_v.Ovpninstance.Nat.Copies.{DeletesCopy}
use hexplus_v.Tests.Ports.{
  chain_has, chain_insert, chain_delete, chain_insert-InsertsOne, chain_delete-DeletesOne,
}
use hexplus_v.Firewall.{input_rc_local_line, valid_input}
use hexplus_v.Text.{trim_space, Text, codes}

apply_forward_installs_example :
    All
      (λ spec.
        chain_has spec (apply_forward chain_has chain_insert chain_delete (codes "eth0") []).0
        ≡ true)
      (forward_specs_reversed (codes "eth0"))
unfolding apply_forward hexplus_v.Firewall.Forward.is_iface chain_has chain_insert
    hexplus_v.Tests.Ports.same_spec hexplus_v.Text.text_eq
apply_forward_installs_example =
    apply_forward_installs chain_has chain_insert chain_delete (codes "eth0") []
      chain_insert-InsertsOne chain_delete-DeletesOne refl

-- A chain of copies of one rule is their number.
count_check : List Text → ℕ → Ending
count_check s k = if k == 0 then absent else done

count_append : List Text → ℕ → ℕ × Ending
count_append s k = (k + 1, done)

count_delete : List Text → ℕ → ℕ × Ending
count_delete s zero = (zero, absent)
count_delete s (suc k) = (k, done)

count : List Text → ℕ → ℕ
count s k = k

count_delete-DeletesCopy : DeletesCopy count_check count_append count_delete count
unfolding count_delete count
count_delete-DeletesCopy s zero = inl (refl, refl, refl)
count_delete-DeletesCopy s (suc k) = inr (refl, refl)
