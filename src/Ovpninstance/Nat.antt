-- ===== src/Ovpninstance/Nat.antt =====
-- internal/ovpninstance/nat.go: the MASQUERADE rule of an instance's subnet. The commands of iptables
-- are parameters on a kernel state `K`.
pub mod Copies
use hexplus_v.Base.{ℕ, zero, suc, Bool, true, false, List, [], ◌∷◌}
use hexplus_v.Text.{Text, codes}

-- How a command of iptables ends: well, with `ruleAbsent`, or with another failure.
pub data Ending : Type 0 where
  done absent failed : Ending

-- `masqueradeSpec`
abbrev pub masquerade_spec : Text → List Text
masquerade_spec subnet =
    codes "POSTROUTING" ∷ codes "-s" ∷ subnet ∷ codes "-j" ∷ codes "MASQUERADE" ∷ []

-- `maxMasqueradeCopies`
abbrev pub max_masquerade_copies : ℕ
max_masquerade_copies = 32

module _ {K : Type 0} (check : List Text → K → Ending)
    (append delete : List Text → K → K × Ending) where
  -- `EnsureMasquerade`: the kernel afterwards, and whether it went well.
  unfoldable pub ensure_masquerade : Text → K → K × Bool
  ensure_masquerade subnet k = elim (check (masquerade_spec subnet) k) [
    | done ↦ (k, true)
    | failed ↦ (k, false)
    | absent ↦
        let (k', ending) = append (masquerade_spec subnet) k in
        (k', elim ending [ done ↦ true | absent ↦ false | failed ↦ false ])
  ]

  -- The loop of `DeleteMasquerade`: `left` rounds, `n` rules deleted so far.
  unfoldable pub delete_rounds : (left n : ℕ) → List Text → K → K × ℕ × Bool
  delete_rounds zero n spec k = (k, n, true)
  delete_rounds (suc left) n spec k =
      let (k', ending) = delete spec k in
      elim ending [
        | done ↦ delete_rounds left (suc n) spec k'
        | absent ↦ (k', n, true)
        | failed ↦ (k', n, false)
      ]

  -- `DeleteMasquerade`: the kernel, how many rules were deleted, and whether it went well.
  unfoldable pub delete_masquerade : Text → K → K × ℕ × Bool
  unfolding delete_rounds
  delete_masquerade subnet k = delete_rounds max_masquerade_copies 0 (masquerade_spec subnet) k
