-- ===== src/Ovpninstance/Nat/Copies.antt =====
-- internal/ovpninstance/nat.go: how many copies of a rule are deleted.
use hexplus_v.Base.{ℕ, zero, suc, ◌+◌, ◌≤◌, ◌≡◌, refl, ◌⊎◌, inl, inr, true, List, arith}
use hexplus_v.Ovpninstance.Nat.{
  Ending, done, absent, masquerade_spec, max_masquerade_copies, delete_rounds, delete_masquerade,
}
use hexplus_v.Text.{Text}

module _ {K : Type 0} (check : List Text → K → Ending) (append delete : List Text → K → K × Ending)
    (copies : List Text → K → ℕ) where
  -- `iptables -D` deletes one copy of a rule, and ends with "absent" where there is none.
  abbrev pub DeletesCopy : Type 0
  DeletesCopy =
      (s : List Text) (k : K)
      → ((copies s k ≡ 0) × ((delete s k).1 ≡ absent) × (copies s (delete s k).0 ≡ 0))
        ⊎ (((delete s k).1 ≡ done) × (copies s k ≡ suc (copies s (delete s k).0)))

  delete_rounds-copies :
      (left n : ℕ) (s : List Text) (k : K)
      → DeletesCopy
      → copies s k ≤ left
      → (copies s (delete_rounds check append delete left n s k).0 ≡ 0)
        × ((delete_rounds check append delete left n s k).1 ≡ n + copies s k)
        × ((delete_rounds check append delete left n s k).2 ≡ true)
  unfolding delete_rounds
  delete_rounds-copies zero n s k one few = (omega (arith, few), omega (arith, few), refl)
  delete_rounds-copies (suc left) n s k one few = elim (one s k) [
    | inl (empty, ends, still) ↦ rw (delete_rounds, ends) (still, omega (arith, empty), refl)
    | inr (ends, fewer) ↦
        let (gone, counted, well) =
          delete_rounds-copies left (suc n) s (delete s k).0 one (omega (arith, few, fewer)) in
        rw (delete_rounds, ends) (gone, omega (arith, counted, fewer), well)
  ]

  -- Where each `iptables -D` deletes one copy or finds none, up to 32 copies of the rule are all
  -- deleted, and the result is their number.
  pub delete_masquerade_lem :
      (subnet : Text) (k : K)
      → DeletesCopy
      → copies (masquerade_spec subnet) k ≤ max_masquerade_copies
      → (copies (masquerade_spec subnet) (delete_masquerade check append delete subnet k).0 ≡ 0)
        × ((delete_masquerade check append delete subnet k).1 ≡ copies (masquerade_spec subnet) k)
        × ((delete_masquerade check append delete subnet k).2 ≡ true)
  unfolding delete_masquerade
  delete_masquerade_lem subnet k one few =
      let (gone, counted, well) =
        delete_rounds-copies max_masquerade_copies 0 (masquerade_spec subnet) k one few in
      (gone, omega (arith, counted), well)
