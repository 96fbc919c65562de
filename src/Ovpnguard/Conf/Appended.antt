-- ===== src/Ovpnguard/Conf/Appended.antt =====
-- internal/ovpnguard/conf.go: the lines of a configuration that the management lines were appended to.
use hexplus_v.Base.{
  ℕ, zero, suc, ◌≡◌, refl, ap, ◌≢◌, ◌⊎◌, inl, inr, Bool, true, false, ◌||◌, not, List, [], ◌∷◌,
  ◌++◌, map, arith, ◌==◌, if◌then◌else◌, Bool-cases, keep, All, All-imp, All-join,
}
use hexplus_v.Ovpnguard.Conf.{inject_lines}
use mathlib.Core.List.{map-append}
use hexplus_v.Text.{
  Text, before_trimmed, text_eq_iff, text_eq_refl, text_mem, text_mem-append, trim_right,
  trim_space,
}
use hexplus_v.Text.Lines.{
  split-join, join, Lacks, split, newline, grow, split-append, split-nil, split-cons, grow-append,
  split-ne-nil,
}

-- A configuration line as the guard writes it: not empty, on one line, with no space around it.
abbrev pub IsPlain : Text → Type 0
IsPlain l = (l ≢ []) × Lacks newline l × (trim_space l ≡ l)

-- The content without the newlines at its end.
abbrev pub body : Text → Text
body = trim_right (λ c. c == newline)

-- Empty lines.
pub blank : ℕ → List Text
blank zero = []
blank (suc k) = [] ∷ blank k

split-before_trimmed :
    (c : ℕ) (t : Text) (k : ℕ) (ps : List Text)
    → ps ≡ split newline t ++ blank k
    → (j : ℕ) × ((if c == newline then [] ∷ ps else grow c ps)
        ≡ split newline (before_trimmed (λ d. d == newline) c t) ++ blank j)
unfolding blank
split-before_trimmed c [] k ps e = elim (Bool-cases (c == newline)) [
  | inl n ↦ (suc k, rw (n, e, split-nil))
  | inr n ↦ (k, rw (n, e, split-cons newline c [], split-nil, n))
]
split-before_trimmed c (d ∷ t) k ps e = elim (Bool-cases (c == newline)) [
  | inl n ↦ (k, rw (split-cons newline c (d ∷ t), n, e))
  | inr n ↦ (
    k,
    rw (split-cons newline c (d ∷ t), n, e)
        (grow-append c (split newline (d ∷ t)) (blank k) (split-ne-nil newline (d ∷ t))),
  )
]

-- Cutting the newlines at the end only takes away empty lines.
pub split-body : (s : Text) → (k : ℕ) × (split newline s ≡ split newline (body s) ++ blank k)
unfolding split trim_right blank
split-body [] = (0, refl)
split-body (c ∷ s) =
    let (k, e) = split-body s in split-before_trimmed c (body s) k (split newline s) e

module _ (p : Text → Bool) where
  pub keep-nil : (ls : List Text) → All (λ l. p l ≡ false) ls → keep p ls ≡ []
  keep-nil [] _ = refl
  keep-nil (l ∷ ls) (h, hs) = rw h (keep-nil ls hs)

  pub keep-All_id : (ls : List Text) → All (λ l. p l ≡ true) ls → keep p ls ≡ ls
  keep-All_id [] _ = refl
  keep-All_id (l ∷ ls) (h, hs) = rw h (ap (◌∷◌ l) (keep-All_id ls hs))

  pub keep-All : (P : Text → Type 0) (ls : List Text) → All P ls → All P (keep p ls)
  keep-All P [] _ = tt
  keep-All P (l ∷ ls) (h, hs) = elim (Bool-cases (p l)) [
    | inl e ↦ rw e (h, keep-All P ls hs)
    | inr e ↦ rw e (keep-All P ls hs)
  ]

  -- An item that passes the test is found among those that are kept.
  found_in_keep : (ls : List Text) → All (λ l. p l ≡ true → text_mem l (keep p ls) ≡ true) ls
  unfolding text_mem
  found_in_keep [] = tt
  found_in_keep (l ∷ ls) = (
    λ h. rw h (rw (text_eq_refl l)),
    All-imp (λ x. p x ≡ true → text_mem x (keep p ls) ≡ true)
        (λ x. p x ≡ true → text_mem x (keep p (l ∷ ls)) ≡ true) ls
        (λ x found px. wider x (found px)) (found_in_keep ls),
  )
    where
      wider : (x : Text) → text_mem x (keep p ls) ≡ true → text_mem x (keep p (l ∷ ls)) ≡ true
      wider x h = ground (arith, h)

pub All-self : (ls : List Text) → All (λ l. text_mem l ls ≡ true) ls
unfolding text_mem
All-self [] = tt
All-self (l ∷ ls) = (
  rw (text_eq_refl l),
  All-imp (λ x. text_mem x ls ≡ true) (λ x. text_mem x (l ∷ ls) ≡ true) ls
      (λ x h. ground (arith, h)) (All-self ls),
)

pub All-split : (P : Text → Type 0) (xs ys : List Text) → All P (xs ++ ys) → All P xs × All P ys
All-split P [] ys h = (tt, h)
All-split P (x ∷ xs) ys (h, hs) = let (a, b) = All-split P xs ys hs in ((h, a), b)

-- What is looked for among the lines of a content.
abbrev pub present : Text → Text → Bool
present c l = text_mem l (map trim_space (split newline c))

abbrev pub missing : Text → List Text → List Text
missing c ls = keep (λ l. not (present c l)) ls

abbrev appended : Text → List Text → Text
appended c add = body c ++ newline ∷ (join newline add ++ newline ∷ [])

pub inject_lines-cases :
    (c : Text) (ls : List Text)
    → ((missing c ls ≡ []) × (inject_lines c ls ≡ c))
      ⊎ ((missing c ls ≢ []) × (inject_lines c ls ≡ appended c (missing c ls)))
unfolding inject_lines
inject_lines-cases c ls = by_missing (missing c ls)
  where
    by_missing :
        (add : List Text)
        → ((add ≡ [])
            × (◌≡◌ {A = Text}
                (elim add [
                  | [] ↦ c
                  | l ∷ more ↦ body c ++ newline ∷ (join newline (l ∷ more) ++ newline ∷ [])
                ])
                c))
          ⊎ ((add ≢ [])
              × (◌≡◌ {A = Text}
                  (elim add [
                    | [] ↦ c
                    | l ∷ more ↦ body c ++ newline ∷ (join newline (l ∷ more) ++ newline ∷ [])
                  ])
                  (appended c add)))
    by_missing [] = inl (refl, refl)
    by_missing (l ∷ more) = inr (λ e. cc, refl)

pub split-appended :
    (c : Text) (add : List Text)
    → add ≢ []
    → All (Lacks newline) add
    → split newline (appended c add) ≡ split newline (body c) ++ (add ++ [] ∷ [])
split-appended c add h l = rw (
  split-append newline (body c) (join newline add ++ newline ∷ []),
  split-append newline (join newline add) [],
  split-join newline add h l,
  split-nil,
)

module _ (l : Text) (h : l ≢ []) where
  text_mem-blank : (k : ℕ) → text_mem l (map trim_space (blank k)) ≡ false
  unfolding text_mem blank trim_space
  text_mem-blank zero = refl
  text_mem-blank (suc k) = ground (arith, text_eq_iff l [], text_mem-blank k)

  -- Cutting the end hides no line that is not empty.
  present-body : (c : Text) → present c l ≡ text_mem l (map trim_space (split newline (body c)))
  present-body c =
      let (k, e) = split-body c in
      rw (e, map-append, text_mem-append, text_mem-blank k) (or_false _)
    where
      or_false : (b : Bool) → (b || false) ≡ b
      or_false true = refl
      or_false false = refl

map_trimmed : (ls : List Text) → All IsPlain ls → map trim_space ls ≡ ls
map_trimmed [] _ = refl
map_trimmed (l ∷ ls) ((_, _, e), hs) = cc (e, map_trimmed ls hs)

module _ (q : Text → Bool) where
  pub All-present : (ls : List Text) → keep (λ l. not (q l)) ls ≡ [] → All (λ l. q l ≡ true) ls
  All-present [] _ = tt
  All-present (l ∷ ls) h = elim (Bool-cases (q l)) [
    | inl e ↦ (e, All-present ls (rw e at h))
    | inr e ↦ absurd (cons_not_nil (rw e at h))
  ]
    where
      cons_not_nil : (l ∷ keep (λ x. not (q x)) ls ≡ []) → ⊥
      cons_not_nil e = cc

pub present-appended :
    (c : Text) (ls : List Text)
    → All IsPlain ls
    → missing c ls ≢ []
    → All (λ l. present (appended c (missing c ls)) l ≡ true) ls
present-appended c ls plain ne =
    All-join IsPlain (λ l. not (present c l) ≡ true → text_mem l add ≡ true)
      (λ l. present (appended c add) l ≡ true) ls one plain
      (found_in_keep (λ l. not (present c l)) ls)
  where
    add : List Text
    add = missing c ls

    add_plain : All IsPlain add
    add_plain = keep-All (λ l. not (present c l)) IsPlain ls plain

    lines : split newline (appended c add) ≡ split newline (body c) ++ (add ++ [] ∷ [])
    lines = split-appended c add ne (All-imp IsPlain (Lacks newline) add (λ l h. h.1) add_plain)

    either : (b m e : Bool) → (not b ≡ true → m ≡ true) → (b || (m || e)) ≡ true
    either true m e h = refl
    either false m e h = rw (h refl)

    one :
        (l : Text)
        → IsPlain l
        → (not (present c l) ≡ true → text_mem l add ≡ true)
        → present (appended c add) l ≡ true
    one l (nonempty, _, _) found =
        rw
          (
            lines,
            map-append,
            text_mem-append,
            ← present-body l nonempty c,
            map-append,
            text_mem-append,
            map_trimmed add add_plain,
          )
          (either (present c l) (text_mem l add) _ found)
