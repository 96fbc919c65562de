-- ===== src/Text/Trim.antt =====
-- What trimming keeps: the laws of `strings.TrimSpace` and its parts.
use hexplus_v.Base.{ℕ, ◌≡◌, refl, ◌∙◌, ◌≢◌, inl, inr, Bool, false, [], ◌∷◌, ◌++◌, Bool-cases, All}
use hexplus_v.Text.{
  Text, before_trimmed, is_space, trim_left, trim_right, trim_right_idem, trim_space,
}

-- The text does not begin with a code point that is trimmed.
abbrev pub StartsClean : (ℕ → Bool) → Text → Type 0
StartsClean p [] = Unit
StartsClean p (c ∷ s) = p c ≡ false

pub trim_left-StartsClean : (p : ℕ → Bool) (s : Text) → StartsClean p (trim_left p s)
unfolding trim_left
trim_left-StartsClean p [] = tt
trim_left-StartsClean p (c ∷ s) = elim (Bool-cases (p c)) [
  | inl e ↦ rw e (trim_left-StartsClean p s)
  | inr e ↦ rw e e
]

pub trim_left_clean : (p : ℕ → Bool) (s : Text) → StartsClean p s → trim_left p s ≡ s
unfolding trim_left
trim_left_clean p [] h = refl
trim_left_clean p (c ∷ s) h = rw h

before_trimmed-StartsClean :
    (p q : ℕ → Bool) (c : ℕ) (t : Text) → q c ≡ false → StartsClean q (before_trimmed p c t)
before_trimmed-StartsClean p q c [] h = elim (Bool-cases (p c)) [ inl e ↦ rw e tt | inr e ↦ rw e h ]
before_trimmed-StartsClean p q c (d ∷ t) h = h

-- Trimming at the end keeps what a text does not begin with.
pub trim_right-StartsClean :
    (p q : ℕ → Bool) (s : Text) → StartsClean q s → StartsClean q (trim_right p s)
unfolding trim_right
trim_right-StartsClean p q [] h = tt
trim_right-StartsClean p q (c ∷ s) h = before_trimmed-StartsClean p q c (trim_right p s) h

pub trim_space-StartsClean : (s : Text) → StartsClean is_space (trim_space s)
unfolding trim_space
trim_space-StartsClean s =
    trim_right-StartsClean is_space is_space (trim_left is_space s)
      (trim_left-StartsClean is_space s)

pub trim_space_clean : (s : Text) → StartsClean is_space s → trim_space s ≡ trim_right is_space s
unfolding trim_space
trim_space_clean s h = rw (trim_left_clean is_space s h)

pub trim_space_idem : (s : Text) → trim_space (trim_space s) ≡ trim_space s
trim_space_idem s =
    trim_space_clean (trim_space s) (trim_space-StartsClean s)
    ∙ (unfold trim_space in trim_right_idem is_space (trim_left is_space s))

module _ {ℓ} (P : ℕ → Type ℓ) where
  before_trimmed-All :
      (p : ℕ → Bool) (c : ℕ) (t : Text) → P c → All P t → All P (before_trimmed p c t)
  before_trimmed-All p c [] h _ = elim (Bool-cases (p c)) [ inl e ↦ rw e tt | inr e ↦ rw e (h, tt) ]
  before_trimmed-All p c (d ∷ t) h hs = (h, hs)

  trim_right-All : (p : ℕ → Bool) (s : Text) → All P s → All P (trim_right p s)
  unfolding trim_right
  trim_right-All p [] _ = tt
  trim_right-All p (c ∷ s) (h, hs) =
      before_trimmed-All p c (trim_right p s) h (trim_right-All p s hs)

  trim_left-All : (p : ℕ → Bool) (s : Text) → All P s → All P (trim_left p s)
  unfolding trim_left
  trim_left-All p [] _ = tt
  trim_left-All p (c ∷ s) (h, hs) = elim (Bool-cases (p c)) [
    | inl e ↦ rw e (trim_left-All p s hs)
    | inr e ↦ rw e (h, hs)
  ]

  -- What holds of all of a text holds of all that trimming leaves.
  pub trim_space-All : (s : Text) → All P s → All P (trim_space s)
  unfolding trim_space
  trim_space-All s h = trim_right-All is_space (trim_left is_space s) (trim_left-All is_space s h)

  pub All-parts : (s t : Text) → All P (s ++ t) → All P s × All P t
  All-parts [] t h = (tt, h)
  All-parts (c ∷ s) t (h, hs) = let rest = All-parts s t hs in ((h, rest.0), rest.1)

-- A text that ends with a code point that stays is not trimmed at its end.
pub trim_right_ends :
    (p : ℕ → Bool) (s t : Text) → t ≢ [] → trim_right p t ≡ t → trim_right p (s ++ t) ≡ s ++ t
unfolding trim_right
trim_right_ends p [] t n h = h
trim_right_ends p (c ∷ s) t n h =
    rw (trim_right_ends p s t n h) (before_trimmed-ne-nil p c (s ++ t) (append-ne-nil s t n))
  where
    before_trimmed-ne-nil :
        (p : ℕ → Bool) (c : ℕ) (t : Text) → t ≢ [] → before_trimmed p c t ≡ c ∷ t
    before_trimmed-ne-nil p c [] n = absurd (n refl)
    before_trimmed-ne-nil p c (d ∷ t) n = refl

    append-ne-nil : (s t : Text) → t ≢ [] → s ++ t ≢ []
    append-ne-nil [] t n = n
    append-ne-nil (c ∷ s) t n = λ e. cc
