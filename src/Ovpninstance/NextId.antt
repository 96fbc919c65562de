-- ===== src/Ovpninstance/NextId.antt =====
-- internal/ovpninstance/ovpninstance.go, `nextID`: the search for a free ID.
use mathlib.Core.Option.{some-injective}
use hexplus_v.Base.{
  ℕ, zero, suc, ◌+◌, ◌≤◌, ◌<◌, ◌≡◌, refl, sym, ◌∙◌, ◌≢◌, ◌↔◌, inl, inr, true, false, not, none,
  some, List, [], ◌∷◌, arith, ◌==◌, Bool-cases, Option-cases, length, keep, tally,
}
use hexplus_v.Ovpninstance.{Instance, is_used, next_from, next_id}

-- How many instances have an ID.
abbrev pub holders : ℕ → List Instance → ℕ
holders id = tally (λ i. i.id == id)

pub is_used-holders :
    (id : ℕ) (instances : List Instance)
    → (is_used id instances ≡ true) ↔ (0 < holders id instances)
unfolding is_used
is_used-holders id [] = ground arith
is_used-holders id (i ∷ instances) = ground (arith, is_used-holders id instances)

-- The instances without an ID.
abbrev others : ℕ → List Instance → List Instance
others id = keep (λ i. not (i.id == id))

length-others :
    (id : ℕ) (instances : List Instance)
    → length (others id instances) + holders id instances ≡ length instances
length-others id [] = refl
length-others id (i ∷ instances) = ground (arith, length-others id instances)

is_used-others :
    (id k : ℕ) (instances : List Instance)
    → k ≢ id
    → is_used k (others id instances) ≡ is_used k instances
unfolding is_used
is_used-others id k [] h = refl
is_used-others id k (i ∷ instances) h = ground (arith, h, is_used-others id k instances h)

-- IDs in a row that are all used are as many as the instances at most.
row_fits :
    (n from : ℕ) (instances : List Instance)
    → ((k : ℕ) → from ≤ k → k < from + n → is_used k instances ≡ true)
    → n ≤ length instances
row_fits zero from instances h = omega arith
row_fits (suc n) from instances h =
    let here = (is_used-holders from instances).0 (h from (omega arith) (omega arith)) in
    let shorter = length-others from instances in
    let rest = row_fits n (suc from) (others from instances) (λ k low high.
      is_used-others from k instances (omega (arith, low))
      ∙ h k (omega (arith, low)) (omega (arith, high))) in
    omega (arith, here, shorter, rest)

next_from-found :
    (fuel from id : ℕ) (instances : List Instance)
    → next_from fuel from instances ≡ some id
    → (from ≤ id)
      × (is_used id instances ≡ false)
      × ((k : ℕ) → from ≤ k → k < id → is_used k instances ≡ true)
unfolding next_from
next_from-found zero from id instances e = ground (arith, e)
next_from-found (suc fuel) from id instances e = elim (Bool-cases (is_used from instances)) [
  | inl taken ↦
      let (low, free, below) = next_from-found fuel (suc from) id instances (rw taken at e) in
      (
        omega (arith, low),
        free,
        λ k at_least less. elim (Bool-cases (k == from)) [
          | inl same ↦ let at_from : k ≡ from = ground (arith, same) in rw at_from taken
          | inr apart ↦ below k (ground (arith, at_least, apart)) less
        ],
      )
  | inr free ↦
      let is_from : from ≡ id = some-injective from id (rw free at e) in
      (
        omega (arith, is_from),
        rw (sym is_from) free,
        λ k at_least less. absurd (omega (arith, is_from, at_least, less)),
      )
]

next_from-full :
    (fuel from : ℕ) (instances : List Instance)
    → next_from fuel from instances ≡ none
    → (k : ℕ) → from ≤ k
    → k < from + fuel
    → is_used k instances ≡ true
unfolding next_from
next_from-full zero from instances e k low high = absurd (omega arith)
next_from-full (suc fuel) from instances e k low high = elim (Bool-cases (is_used from instances)) [
  | inr free ↦ ground (arith, rw free at e)
  | inl taken ↦ elim (Bool-cases (k == from)) [
    | inl same ↦ let at_from : k ≡ from = ground (arith, same) in rw at_from taken
    | inr apart ↦
        next_from-full fuel (suc from) instances (rw taken at e) k (ground (arith, low, apart))
          (omega (arith, high))
  ]
]

-- The search for an ID ends: it finds one of 2 or more that is free, and all below it are taken.
pub next_id_lem :
    (instances : List Instance)
    → (id : ℕ) × (next_id instances ≡ some id)
      × (2 ≤ id)
      × (is_used id instances ≡ false)
      × ((k : ℕ) → 2 ≤ k → k < id → is_used k instances ≡ true)
unfolding next_id
next_id_lem instances = elim (Option-cases (next_from (suc (length instances)) 2 instances)) [
  | inl gone ↦ absurd (
      omega (
        arith,
        row_fits (suc (length instances)) 2 instances
            (next_from-full (suc (length instances)) 2 instances gone),
      ))
  | inr (id, found) ↦
      let (low, free, below) = next_from-found (suc (length instances)) 2 id instances found in
      (id, found, low, free, below)
]
