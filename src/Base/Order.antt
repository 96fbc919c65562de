-- ===== src/Base/Order.antt =====
-- `sort.Slice` and `sort.Strings` of Go's library: an insertion sort by a Boolean `less`.
use hexplus_v.Base.Lists.{any, tally, length, All}
use hexplus_v.Base.Tests.{if◌then◌else◌, Bool-cases}
use Prim.Native.Nat.{suc}
use mathlib.Core.Bool.{Bool, true, false}
use mathlib.Core.List.{List, [], ◌∷◌, Perm}
use mathlib.Core.List.Perm
use mathlib.Core.Logic.{inl, inr}
use mathlib.Core.Path.{◌≡◌, refl}
use native.Mathlib.Omega.{arith}

-- What `sort` wants of `less`: "not less" is transitive, and `less` is asymmetric.
pub record StrictOrder {ℓ} (A : Type ℓ) (less : A → A → Bool) : Type ℓ where
  pub asymmetric : (a b : A) → less a b ≡ true → less b a ≡ false
  pub not_less_trans : (a b c : A) → less b a ≡ false → less c b ≡ false → less c a ≡ false

module _ {ℓ} {A : Type ℓ} (less : A → A → Bool) where
  pub insert : A → List A → List A
  insert x [] = x ∷ []
  insert x (y ∷ ys) = if less y x then y ∷ insert x ys else x ∷ y ∷ ys

  unfoldable pub sort : List A → List A
  unfolding insert
  sort [] = []
  sort (x ∷ xs) = insert x (sort xs)

  -- No item is less than one before it.
  abbrev pub IsSorted : List A → Type ℓ
  IsSorted [] = Unit
  IsSorted (x ∷ xs) = All (λ y. less y x ≡ false) xs × IsSorted xs

  insert-perm : (x : A) (xs : List A) → Perm (insert x xs) (x ∷ xs)
  unfolding insert
  insert-perm x [] = Perm.refl (x ∷ [])
  insert-perm x (y ∷ ys) = elim (Bool-cases (less y x)) [
    | inl e ↦ rw e (Perm.trans (Perm.cons y (insert-perm x ys)) (Perm.swap x y ys))
    | inr e ↦ rw e (Perm.refl (x ∷ y ∷ ys))
  ]

  -- Sorting only changes the order.
  pub sort-perm : (xs : List A) → Perm (sort xs) xs
  unfolding sort
  sort-perm [] = Perm.refl []
  sort-perm (x ∷ xs) = Perm.trans (insert-perm x (sort xs)) (Perm.cons x (sort-perm xs))

  length-insert : (x : A) (xs : List A) → length (insert x xs) ≡ suc (length xs)
  unfolding insert
  length-insert x [] = refl
  length-insert x (y ∷ ys) = ground (arith, length-insert x ys)

  pub length-sort : (xs : List A) → length (sort xs) ≡ length xs
  unfolding sort
  length-sort [] = refl
  length-sort (x ∷ xs) = ground (arith, length-insert x (sort xs), length-sort xs)

  module _ (p : A → Bool) where
    tally-insert : (x : A) (xs : List A) → tally p (insert x xs) ≡ tally p (x ∷ xs)
    unfolding insert
    tally-insert x [] = refl
    tally-insert x (y ∷ ys) = ground (arith, tally-insert x ys)

    pub tally-sort : (xs : List A) → tally p (sort xs) ≡ tally p xs
    unfolding sort
    tally-sort [] = refl
    tally-sort (x ∷ xs) = ground (arith, tally-insert x (sort xs), tally-sort xs)

    any-insert : (x : A) (xs : List A) → any p (insert x xs) ≡ any p (x ∷ xs)
    unfolding insert
    any-insert x [] = refl
    any-insert x (y ∷ ys) = ground (arith, any-insert x ys)

    pub any-sort : (xs : List A) → any p (sort xs) ≡ any p xs
    unfolding sort
    any-sort [] = refl
    any-sort (x ∷ xs) = ground (arith, any-insert x (sort xs), any-sort xs)

  module _ {κ} (P : A → Type κ) where
    insert-All : (x : A) (xs : List A) → P x → All P xs → All P (insert x xs)
    unfolding insert
    insert-All x [] p ps = (p, tt)
    insert-All x (y ∷ ys) p (q, qs) = elim (Bool-cases (less y x)) [
      | inl e ↦ rw e (q, insert-All x ys p qs)
      | inr e ↦ rw e (p, (q, qs))
    ]

    pub sort-All : (xs : List A) → All P xs → All P (sort xs)
    unfolding sort
    sort-All [] _ = tt
    sort-All (x ∷ xs) (p, ps) = insert-All x (sort xs) p (sort-All xs ps)

  module _ (o : StrictOrder A less) where
    not_less-All :
        (x y : A) (ys : List A)
        → less y x ≡ false
        → All (λ z. less z y ≡ false) ys
        → All (λ z. less z x ≡ false) ys
    not_less-All x y [] h _ = tt
    not_less-All x y (z ∷ zs) h (p, ps) = (o.not_less_trans x y z h p, not_less-All x y zs h ps)

    insert-IsSorted : (x : A) (xs : List A) → IsSorted xs → IsSorted (insert x xs)
    unfolding insert
    insert-IsSorted x [] _ = (tt, tt)
    insert-IsSorted x (y ∷ ys) (h, s) = elim (Bool-cases (less y x)) [
      | inl e ↦
          rw e
            (insert-All (λ z. less z y ≡ false) x ys (o.asymmetric y x e) h, insert-IsSorted x ys s)
      | inr e ↦ rw e ((e, not_less-All x y ys e h), (h, s))
    ]

    pub sort-IsSorted : (xs : List A) → IsSorted (sort xs)
    unfolding sort
    sort-IsSorted [] = tt
    sort-IsSorted (x ∷ xs) = insert-IsSorted x (sort xs) (sort-IsSorted xs)
