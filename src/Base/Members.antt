-- ===== src/Base/Members.antt =====
-- What stands in a list, with its place.
use hexplus_v.Base.Lists.{keep, All}
use hexplus_v.Base.Tests.{Bool-cases}
use mathlib.Core.Path.{◌≡◌, refl, ap, sym, ◌∙◌}
use mathlib.Core.Logic.{◌⊎◌, inl, inr}
use mathlib.Core.Bool.{Bool, true}
use mathlib.Core.List.{List, [], ◌∷◌, map}

module _ {A : Type 0} where
  abbrev pub In : A → List A → Type 0
  In x [] = ⊥
  In x (y ∷ ys) = (x ≡ y) ⊎ In x ys

  pub In-keep : (p : A → Bool) (x : A) (xs : List A) → In x xs → p x ≡ true → In x (keep p xs)
  In-keep p x [] m h = elim m [ ]
  In-keep p x (y ∷ ys) (inl e) h = rw (ap p (sym e) ∙ h) (inl e)
  In-keep p x (y ∷ ys) (inr m) h = elim (Bool-cases (p y)) [
    | inl k ↦ rw k (inr (In-keep p x ys m h))
    | inr k ↦ rw k (In-keep p x ys m h)
  ]

  -- All that holds of the members holds of all.
  pub All-of_In : (P : A → Type 0) (xs : List A) → ((x : A) → In x xs → P x) → All P xs
  All-of_In P [] h = tt
  All-of_In P (y ∷ ys) h = (h y (inl refl), All-of_In P ys (λ x m. h x (inr m)))

  pub keep-In : (p : A → Bool) (x : A) (xs : List A) → In x (keep p xs) → In x xs × (p x ≡ true)
  keep-In p x [] m = elim m [ ]
  keep-In p x (y ∷ ys) m = elim (Bool-cases (p y)) [
    | inl k ↦ kept k (rw k at m) (λ n. keep-In p x ys n)
    | inr k ↦ passed (keep-In p x ys (rw k at m))
  ]
    where
      kept :
          p y ≡ true
          → In x (y ∷ keep p ys)
          → (In x (keep p ys) → In x ys × (p x ≡ true))
          → In x (y ∷ ys) × (p x ≡ true)
      kept k (inl e) ih = (inl e, ap p e ∙ k)
      kept k (inr n) ih = (inr (ih n).0, (ih n).1)

      passed : In x ys × (p x ≡ true) → In x (y ∷ ys) × (p x ≡ true)
      passed (n, h) = (inr n, h)

module _ {A B : Type 0} where
  pub In-map : (f : A → B) (x : A) (xs : List A) → In x xs → In (f x) (map f xs)
  In-map f x [] m = elim m [ ]
  In-map f x (y ∷ ys) (inl e) = inl (ap f e)
  In-map f x (y ∷ ys) (inr m) = inr (In-map f x ys m)

  pub map-In : (f : A → B) (z : B) (xs : List A) → In z (map f xs) → (x : A) × In x xs × (z ≡ f x)
  map-In f z [] m = elim m [ ]
  map-In f z (y ∷ ys) (inl e) = (y, inl refl, e)
  map-In f z (y ∷ ys) (inr m) = let (x, n, e) = map-In f z ys m in (x, inr n, e)
