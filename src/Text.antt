-- ===== src/Text.antt =====
-- What the program uses of Go's `strings` and `strconv`. A string is the list of its code points;
-- comparing, searching and cutting at ASCII marks is the same on code points as on UTF-8 bytes.
pub mod Lines
pub mod Number
pub mod Cut
pub mod Words
pub mod Trim
use Prim.Native.Char.{code}
use Prim.Native.Nat.{compare, Ordering}
use Prim.Native.String.{String}
use hexplus_v.Base.{
  ℕ, ◌≡◌, refl, ap, ◌≢◌, ◌↔◌, inl, inr, Bool, true, false, ◌&&◌, ◌||◌, List, [], ◌∷◌, ◌++◌, arith,
  ltb, leb, ◌==◌, if◌then◌else◌, Bool-cases, any, All,
}

abbrev pub Text : Type 0
Text = List ℕ

-- The code points of a literal.
abbrev pub codes : String → Text
codes String.[] = []
codes (String.◌∷◌ c s) = code c ∷ codes s

-- `s == t`
unfoldable pub text_eq : Text → Text → Bool
text_eq [] [] = true
text_eq (a ∷ s) (b ∷ t) = a == b && text_eq s t
text_eq _ _ = false

-- `s < t`
unfoldable pub text_lt : Text → Text → Bool
text_lt [] [] = false
text_lt [] (b ∷ t) = true
text_lt (a ∷ s) [] = false
text_lt (a ∷ s) (b ∷ t) =
    let rest = text_lt s t in if ltb a b then true else if a == b then rest else false

-- `strings.HasPrefix(s, prefix)`, the prefix first
unfoldable pub has_prefix : Text → Text → Bool
has_prefix [] s = true
has_prefix (a ∷ p) [] = false
has_prefix (a ∷ p) (b ∷ s) = a == b && has_prefix p s

-- `unicode.IsSpace`
unfoldable pub is_space : ℕ → Bool
is_space c =
    (leb 9 c && leb c 13)
    || c == 32
    || c == 0x85
    || c == 0xa0
    || c == 0x1680
    || (leb 0x2000 c && leb c 0x200a)
    || c == 0x2028
    || c == 0x2029
    || c == 0x202f
    || c == 0x205f
    || c == 0x3000

-- `strings.TrimLeftFunc`
unfoldable pub trim_left : (ℕ → Bool) → Text → Text
trim_left p [] = []
trim_left p (c ∷ s) = if p c then trim_left p s else c ∷ s

-- A code point before a text that is trimmed at its right end.
abbrev pub before_trimmed : (ℕ → Bool) → ℕ → Text → Text
before_trimmed p c [] = if p c then [] else c ∷ []
before_trimmed p c (d ∷ t) = c ∷ d ∷ t

-- `strings.TrimRightFunc`
unfoldable pub trim_right : (ℕ → Bool) → Text → Text
trim_right p [] = []
trim_right p (c ∷ s) = before_trimmed p c (trim_right p s)

-- `strings.TrimSpace`
unfoldable pub trim_space : Text → Text
unfolding trim_left trim_right is_space
trim_space s = trim_right is_space (trim_left is_space s)

-- The non-empty words of `fields`; `word` holds the current one.
unfoldable pub fields_from : Text → Text → List Text
fields_from [] [] = []
fields_from (w ∷ word) [] = (w ∷ word) ∷ []
fields_from word (c ∷ s) = elim (is_space c) [
  | true ↦ elim word [ [] ↦ fields_from [] s | w ∷ ws ↦ (w ∷ ws) ∷ fields_from [] s ]
  | false ↦ fields_from (word ++ c ∷ []) s
]

-- `strings.Fields`
unfoldable pub fields : Text → List Text
unfolding fields_from is_space
fields s = fields_from [] s

-- `m[k]` of a Go map that tells which keys are in a set
unfoldable pub text_mem : Text → List Text → Bool
unfolding text_eq
text_mem t ts = any (text_eq t) ts

pub text_eq_iff : (s t : Text) → (text_eq s t ≡ true) ↔ (s ≡ t)
unfolding text_eq
text_eq_iff [] [] = (λ h. refl, λ h. refl)
text_eq_iff [] (b ∷ t) = ground arith
text_eq_iff (a ∷ s) [] = ground arith
text_eq_iff (a ∷ s) (b ∷ t) = ground (arith, text_eq_iff s t)

pub text_eq_refl : (s : Text) → text_eq s s ≡ true
text_eq_refl s = (text_eq_iff s s).1 refl

pub text_ne : (s t : Text) → text_eq s t ≡ false → s ≢ t
text_ne s t h = λ e. ground (arith, h, e, text_eq_iff s t)

pub text_lt_asymm : (s t : Text) → text_lt s t ≡ true → text_lt t s ≡ false
unfolding text_lt
text_lt_asymm [] [] h = refl
text_lt_asymm [] (b ∷ t) h = refl
text_lt_asymm (a ∷ s) [] h = ground arith
text_lt_asymm (a ∷ s) (b ∷ t) h = ground (arith, text_lt_asymm s t)

-- Two texts of which neither is less are the same.
pub text_lt_total : (s t : Text) → text_lt s t ≡ false → text_lt t s ≡ false → text_eq s t ≡ true
unfolding text_lt text_eq
text_lt_total [] [] h k = refl
text_lt_total [] (b ∷ t) h k = ground arith
text_lt_total (a ∷ s) [] h k = ground arith
text_lt_total (a ∷ s) (b ∷ t) h k = ground (arith, text_lt_total s t)

pub text_not_lt_trans :
    (s t u : Text) → text_lt t s ≡ false → text_lt u t ≡ false → text_lt u s ≡ false
unfolding text_lt
text_not_lt_trans [] [] [] h k = refl
text_not_lt_trans [] [] (c ∷ u) h k = k
text_not_lt_trans [] (b ∷ t) [] h k = ground arith
text_not_lt_trans [] (b ∷ t) (c ∷ u) h k = refl
text_not_lt_trans (a ∷ s) [] u h k = ground arith
text_not_lt_trans (a ∷ s) (b ∷ t) [] h k = ground arith
text_not_lt_trans (a ∷ s) (b ∷ t) (c ∷ u) h k = ground (arith, text_not_lt_trans s t u)

pub has_prefix-append : (p s : Text) → has_prefix p (p ++ s) ≡ true
unfolding has_prefix
has_prefix-append [] s = refl
has_prefix-append (c ∷ p) s = ground (arith, has_prefix-append p s)

-- A text is left as it is where nothing in it is trimmed.
pub trim_right_clean : (p : ℕ → Bool) (s : Text) → All (λ c. p c ≡ false) s → trim_right p s ≡ s
unfolding trim_right
trim_right_clean p [] _ = refl
trim_right_clean p (c ∷ []) (h, _) = rw h
trim_right_clean p (c ∷ d ∷ s) (h, hs) = rw (trim_right_clean p (d ∷ s) hs)

pub trim_right_end :
    (p : ℕ → Bool) (s : Text) (d : ℕ) → p d ≡ true → trim_right p (s ++ d ∷ []) ≡ trim_right p s
unfolding trim_right
trim_right_end p [] d h = rw h
trim_right_end p (c ∷ s) d h = ap (before_trimmed p c) (trim_right_end p s d h)

pub trim_right_idem : (p : ℕ → Bool) (s : Text) → trim_right p (trim_right p s) ≡ trim_right p s
unfolding trim_right
trim_right_idem p [] = refl
trim_right_idem p (c ∷ s) = before c (trim_right p s) (trim_right_idem p s)
  where
    before :
        (e : ℕ) (t : Text)
        → trim_right p t ≡ t
        → trim_right p (before_trimmed p e t) ≡ before_trimmed p e t
    before e [] h = elim (Bool-cases (p e)) [ inl q ↦ rw q | inr q ↦ rw q (rw q) ]
    before e (d ∷ t) h = ap (before_trimmed p e) h

pub text_mem-append :
    (l : Text) (xs ys : List Text) → text_mem l (xs ++ ys) ≡ (text_mem l xs || text_mem l ys)
unfolding text_mem
text_mem-append l [] ys = refl
text_mem-append l (x ∷ xs) ys = ground (arith, text_mem-append l xs ys)
