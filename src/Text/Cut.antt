-- ===== src/Text/Cut.antt =====
-- Go's `strings.Cut` at one ASCII mark.
use mathlib.Core.Option.{some-injective}
use mathlib.Core.Path.{ap₂}
use hexplus_v.Base.{
  ℕ, ◌≡◌, sym, ap, ◌≢◌, inl, inr, Option, none, some, [], ◌∷◌, ◌++◌, arith, ◌==◌, if◌then◌else◌,
  Bool-cases, Option-cases,
}
use hexplus_v.Text.{Text}
use hexplus_v.Text.Lines.{Lacks}

abbrev before_part : ℕ → Option (Text × Text) → Option (Text × Text)
before_part c none = none
before_part c (some (h, r)) = some (c ∷ h, r)

-- `strings.Cut`, `none` when the mark does not occur
unfoldable pub cut : ℕ → Text → Option (Text × Text)
cut mark [] = none
cut mark (c ∷ s) = let rest = cut mark s in if c == mark then some ([], s) else before_part c rest

pub cut-append : (mark : ℕ) (h r : Text) → Lacks mark h → cut mark (h ++ mark ∷ r) ≡ some (h, r)
unfolding cut
cut-append mark [] r _ = ground arith
cut-append mark (c ∷ h) r (l, ls) = ground (arith, l, cut-append mark h r ls)

cut_here :
    (mark c : ℕ) (s h r : Text)
    → c ≡ mark
    → ◌≡◌ {A = Option (Text × Text)} (some ([], s)) (some (h, r))
    → ((c ∷ s) ≡ h ++ mark ∷ r) × Lacks mark h
cut_here mark c s h r same e =
    let p = some-injective ([], s) (h, r) e in
    let none_before = sym (ap (λ (x : Text × Text). x.0) p) in
    let behind = ap (λ (x : Text × Text). x.1) p in rw (none_before) (ap₂ (◌∷◌) same behind, tt)

cut_later :
    (mark c : ℕ) (s h h' r r' : Text)
    → c ≢ mark
    → (s ≡ h' ++ mark ∷ r') × Lacks mark h'
    → ◌≡◌ {A = Option (Text × Text)} (some (c ∷ h', r')) (some (h, r))
    → ((c ∷ s) ≡ h ++ mark ∷ r) × Lacks mark h
cut_later mark c s h h' r r' other (parts, lacks) e =
    let p = some-injective (c ∷ h', r') (h, r) e in
    let before = sym (ap (λ (x : Text × Text). x.0) p) in
    let behind = sym (ap (λ (x : Text × Text). x.1) p) in
    rw (before, behind) (ap (◌∷◌ c) parts, (other, lacks))

pub cut-parts :
    (mark : ℕ) (s h r : Text) → cut mark s ≡ some (h, r) → (s ≡ h ++ mark ∷ r) × Lacks mark h
unfolding cut
cut-parts mark [] h r e = ground (arith, e)
cut-parts mark (c ∷ s) h r e = elim (Bool-cases (c == mark)) [
  | inl hit ↦ cut_here mark c s h r (ground (arith, hit)) (rw hit at e)
  | inr miss ↦ elim (Option-cases (cut mark s)) [
    | inl gone ↦ ground (arith, rw (miss, gone) at e)
    | inr ((h', r'), found) ↦
        cut_later mark c s h h' r r' (ground (arith, miss)) (cut-parts mark s h' r' found)
          (rw (miss, found) at e)
  ]
]
