-- ===== src/Text/Lines.antt =====
-- `strings.Split` and `strings.Join` at one code point: the lines of a configuration file.
use hexplus_v.Base.{
  ℕ, ◌≡◌, refl, sym, ap, ◌≢◌, inl, inr, false, List, [], ◌∷◌, ◌++◌, append_assoc, arith, ◌==◌,
  if◌then◌else◌, Bool-cases, any, All,
}
use hexplus_v.Text.{Text}

abbrev pub newline : ℕ
newline = b'\n'

-- The first part of a split, put before the others.
abbrev pub grow : ℕ → List Text → List Text
grow c [] = (c ∷ []) ∷ []
grow c (p ∷ ps) = (c ∷ p) ∷ ps

-- `strings.Split(s, sep)`
unfoldable pub split : ℕ → Text → List Text
split sep [] = [] ∷ []
split sep (c ∷ s) = if c == sep then [] ∷ split sep s else grow c (split sep s)

-- `strings.Join(parts, sep)`
unfoldable pub join : ℕ → List Text → Text
join sep [] = []
join sep (p ∷ []) = p
join sep (p ∷ q ∷ ps) = p ++ sep ∷ join sep (q ∷ ps)

abbrev pub Lacks : ℕ → Text → Type 0
Lacks sep = All (λ c. c ≢ sep)

-- A literal lacks a mark that a search does not find.
pub Lacks-any : (sep : ℕ) (s : Text) → any (λ c. c == sep) s ≡ false → Lacks sep s
Lacks-any sep [] h = tt
Lacks-any sep (c ∷ s) h = ground (arith, Lacks-any sep s)

pub split-cons :
    (sep c : ℕ) (s : Text)
    → split sep (c ∷ s) ≡ (if c == sep then [] ∷ split sep s else grow c (split sep s))
unfolding split
split-cons sep c s = refl

pub split-nil : (sep : ℕ) → split sep [] ≡ [] ∷ []
unfolding split
split-nil sep = refl

pub split-ne-nil : (sep : ℕ) (s : Text) → split sep s ≢ []
unfolding split
split-ne-nil sep [] = λ h. cc
split-ne-nil sep (c ∷ s) = elim (Bool-cases (c == sep)) [
  | inl e ↦ rw e (λ h. cc)
  | inr e ↦ rw e (grow-ne-nil c (split sep s))
]
  where
    grow-ne-nil : (d : ℕ) (ps : List Text) → grow d ps ≢ []
    grow-ne-nil d [] = λ h. cc
    grow-ne-nil d (p ∷ ps) = λ h. cc

join-cons :
    (sep : ℕ) (p : Text) (ps : List Text) → ps ≢ [] → join sep (p ∷ ps) ≡ p ++ sep ∷ join sep ps
unfolding join
join-cons sep p [] h = absurd (h refl)
join-cons sep p (q ∷ ps) h = refl

join-grow : (sep c : ℕ) (ps : List Text) → ps ≢ [] → join sep (grow c ps) ≡ c ∷ join sep ps
unfolding join
join-grow sep c [] h = absurd (h refl)
join-grow sep c (p ∷ []) h = refl
join-grow sep c (p ∷ q ∷ ps) h = refl

-- Joining the parts of a split gives the text back.
pub join-split : (sep : ℕ) (s : Text) → join sep (split sep s) ≡ s
unfolding split
join-split sep [] = unfold join in refl
join-split sep (c ∷ s) = elim (Bool-cases (c == sep)) [
  | inl e ↦
      rw e (ground (arith, join-cons sep [] (split sep s) (split-ne-nil sep s), join-split sep s))
  | inr e ↦
      rw e (ground (arith, join-grow sep c (split sep s) (split-ne-nil sep s), join-split sep s))
]

-- A text without the mark is one part.
pub split-Lacks_sep : (sep : ℕ) (s : Text) → Lacks sep s → split sep s ≡ s ∷ []
unfolding split
split-Lacks_sep sep [] h = refl
split-Lacks_sep sep (c ∷ s) (h, hs) = rw (split-Lacks_sep sep s hs) (ground arith)

pub grow-append : (c : ℕ) (ps qs : List Text) → ps ≢ [] → grow c (ps ++ qs) ≡ grow c ps ++ qs
grow-append c [] qs h = absurd (h refl)
grow-append c (p ∷ ps) qs h = refl

-- A split goes through a mark.
pub split-append : (sep : ℕ) (s t : Text) → split sep (s ++ sep ∷ t) ≡ split sep s ++ split sep t
unfolding split
split-append sep [] t = ground arith
split-append sep (c ∷ s) t = elim (Bool-cases (c == sep)) [
  | inl e ↦ rw e (ap (◌∷◌ []) (split-append sep s t))
  | inr e ↦
      rw e
        (rw (split-append sep s t) (grow-append c (split sep s) (split sep t) (split-ne-nil sep s)))
]

-- What holds of the mark and of every part holds of the join.
module _ {ℓ} (P : ℕ → Type ℓ) where
  append-All : (r t : Text) → All P r → All P t → All P (r ++ t)
  append-All [] t _ h = h
  append-All (c ∷ r) t (x, xs) h = (x, append-All r t xs h)

  pub join-All : (sep : ℕ) (ps : List Text) → P sep → All (All P) ps → All P (join sep ps)
  unfolding join
  join-All sep [] h _ = tt
  join-All sep (p ∷ []) h (l, _) = l
  join-All sep (p ∷ q ∷ ps) h (l, ls) =
      append-All p (sep ∷ join sep (q ∷ ps)) l (h, join-All sep (q ∷ ps) h ls)

-- An empty last part ends a join with the mark.
pub join_end :
    (sep : ℕ) (ps : List Text) → ps ≢ [] → join sep (ps ++ [] ∷ []) ≡ join sep ps ++ sep ∷ []
unfolding join
join_end sep [] h = absurd (h refl)
join_end sep (p ∷ []) h = refl
join_end sep (p ∷ q ∷ ps) h =
    rw (join_end sep (q ∷ ps) (λ e. cc)) (sym (append_assoc p (sep ∷ join sep (q ∷ ps)) (sep ∷ [])))

-- Splitting a join of parts that lack the mark gives the parts back.
pub split-join :
    (sep : ℕ) (ps : List Text) → ps ≢ [] → All (Lacks sep) ps → split sep (join sep ps) ≡ ps
unfolding join
split-join sep [] h _ = absurd (h refl)
split-join sep (p ∷ []) h (l, _) = split-Lacks_sep sep p l
split-join sep (p ∷ q ∷ ps) h (l, ls) =
    rw (split-append sep p (join sep (q ∷ ps)), split-Lacks_sep sep p l)
      (ap (◌∷◌ p) (split-join sep (q ∷ ps) (λ e. cc) ls))

-- Every part of a split lacks the mark.
pub split-Lacks : (sep : ℕ) (s : Text) → All (Lacks sep) (split sep s)
unfolding split
split-Lacks sep [] = (tt, tt)
split-Lacks sep (c ∷ s) = elim (Bool-cases (c == sep)) [
  | inl e ↦ rw e (tt, split-Lacks sep s)
  | inr e ↦ rw e (grow-Lacks (ground arith) (split sep s) (split-Lacks sep s))
]
  where
    grow-Lacks : c ≢ sep → (ps : List Text) → All (Lacks sep) ps → All (Lacks sep) (grow c ps)
    grow-Lacks n [] h = ((n, tt), tt)
    grow-Lacks n (p ∷ ps) (h, hs) = ((n, h), hs)
