-- ===== src/Ovpnspread/Ports.antt =====
-- internal/ovpnspread/ovpnspread.go: the ports that new workers get.
use hexplus_v.Base.{
  ℕ, zero, suc, ◌+◌, ◌-◌, ◌≤◌, ◌<◌, ◌≡◌, inl, inr, Bool, true, false, ◌&&◌, not, none, some, List,
  [], ◌∷◌, arith, ltb, leb, if◌then◌else◌, Bool-cases, length, All,
}
use mathlib.Core.Option.{some-injective}
use hexplus_v.Ovpninstance.{Instance}
use hexplus_v.Ovpnspread.{enough, is_taken, pick_from, pick_ports, worker_port_base}

-- A port is at least so far up, below 65536, and neither taken nor in use.
pub record IsUsable (free taken : ℕ → Bool) (low p : ℕ) : Type 0 where
  pub from_low : low ≤ p
  pub is_port : p < 65536
  pub untaken : taken p ≡ false
  pub unused : free p ≡ true

-- Every port is above the one before it, so that no port stands twice.
abbrev pub IsAscending : ℕ → List ℕ → Type 0
IsAscending low [] = Unit
IsAscending low (p ∷ ps) = (low ≤ p) × IsAscending (p + 1) ps

-- How many of so many ports in a row are usable.
abbrev pub usable_in : (ℕ → Bool) → (ℕ → Bool) → ℕ → ℕ → ℕ
usable_in free taken zero p = 0
usable_in free taken (suc tries) p =
    (if not (taken p) && free p then 1 else 0) + usable_in free taken tries (p + 1)

module _ (free taken : ℕ → Bool) where
  pick_from-IsUsable :
      (tries low p n : ℕ)
      → low ≤ p
      → p + tries ≤ 65536
      → All (IsUsable free taken low) (pick_from free taken tries p n)
  unfolding pick_from
  pick_from-IsUsable zero low p n h k = tt
  pick_from-IsUsable (suc tries) low p zero h k = tt
  pick_from-IsUsable (suc tries) low p (suc n) h k = elim (Bool-cases (not (taken p) && free p)) [
    | inl e ↦
        rw (pick_from, e)
          (
            (record {
              from_low = h;
              is_port = omega arith;
              untaken = ground (arith, e);
              unused = ground (arith, e);
            }),
            pick_from-IsUsable tries low (p + 1) n (omega arith) (omega arith),
          )
    | inr e ↦
        rw (pick_from, e) (pick_from-IsUsable tries low (p + 1) (suc n) (omega arith) (omega arith))
  ]

  IsAscending-lower :
      (low high : ℕ) (ps : List ℕ) → low ≤ high → IsAscending high ps → IsAscending low ps
  IsAscending-lower low high [] h _ = tt
  IsAscending-lower low high (p ∷ ps) h (k, rest) = (omega arith, rest)

  pick_from-IsAscending : (tries p n : ℕ) → IsAscending p (pick_from free taken tries p n)
  unfolding pick_from
  pick_from-IsAscending zero p n = tt
  pick_from-IsAscending (suc tries) p zero = tt
  pick_from-IsAscending (suc tries) p (suc n) = elim (Bool-cases (not (taken p) && free p)) [
    | inl e ↦ rw (pick_from, e) (omega arith, pick_from-IsAscending tries (p + 1) n)
    | inr e ↦
        rw (pick_from, e)
          (IsAscending-lower p (p + 1) (pick_from free taken tries (p + 1) (suc n)) (omega arith)
            (pick_from-IsAscending tries (p + 1) (suc n)))
  ]

  -- As many are found as are wanted or usable.
  length-pick_from :
      (tries p n : ℕ)
      → length (pick_from free taken tries p n)
        ≡ (if leb n (usable_in free taken tries p) then n else usable_in free taken tries p)
  unfolding pick_from
  length-pick_from zero p n = ground arith
  length-pick_from (suc tries) p zero = ground arith
  length-pick_from (suc tries) p (suc n) = elim (Bool-cases (not (taken p) && free p)) [
    | inl e ↦ rw e (ground (arith, length-pick_from tries (p + 1) n))
    | inr e ↦ rw e (ground (arith, length-pick_from tries (p + 1) (suc n)))
  ]

  picked :
      (tries low n : ℕ) (ps : List ℕ)
      → low + tries ≤ 65536
      → enough free n (pick_from free taken tries low n) ≡ some ps
      → (length ps ≡ n) × IsAscending low ps × All (IsUsable free taken low) ps
  picked tries low n ps h e =
      elim (Bool-cases (ltb (length (pick_from free taken tries low n)) n)) [
        | inl few ↦ absurd (ground (arith, rw few at e))
        | inr all_found ↦
            let same = some-injective (pick_from free taken tries low n) ps (rw all_found at e) in
            rw (← same) (
              (ground (arith, all_found, length-pick_from tries low n)),
              pick_from-IsAscending tries low n,
              pick_from-IsUsable tries low low n (omega arith) h,
            )
      ]

  unpicked :
      (tries low n : ℕ)
      → enough free n (pick_from free taken tries low n) ≡ none
      → usable_in free taken tries low < n
  unpicked tries low n e = ground (arith, e, length-pick_from tries low n)

-- What the ports of new workers are to be.
abbrev pub ArePorts : (ℕ → Bool) → ℕ → ℕ → List Instance → List ℕ → Type 0
ArePorts free n primary instances ps =
    (length ps ≡ n)
    × IsAscending worker_port_base ps
    × All (IsUsable free (is_taken primary instances) worker_port_base) ps

-- The ports for new workers are as many as asked for, in ascending order and so all different, from
-- 21195 up to 65535, none of them the primary's or another instance's, and each of them is free.
pub pick_ports-ArePorts :
    (free : ℕ → Bool) (n primary : ℕ) (instances : List Instance) (ps : List ℕ)
    → pick_ports free n primary instances ≡ some ps
    → ArePorts free n primary instances ps
unfolding pick_ports
pick_ports-ArePorts free n primary instances ps e =
    picked free (is_taken primary instances) (65536 - worker_port_base) worker_port_base n ps
      (omega arith) e

-- `pickPorts` fails only when there are not so many such ports.
pub pick_ports-none :
    (free : ℕ → Bool) (n primary : ℕ) (instances : List Instance)
    → pick_ports free n primary instances ≡ none
    → usable_in free (is_taken primary instances) (65536 - worker_port_base) worker_port_base < n
unfolding pick_ports
pick_ports-none free n primary instances e =
    unpicked free (is_taken primary instances) (65536 - worker_port_base) worker_port_base n e
