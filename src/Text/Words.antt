-- ===== src/Text/Words.antt =====
-- Words without spaces: `strings.Fields` of one, and the print of a number as one.
use hexplus_v.Base.{
  ℕ, ◌≡◌, refl, ap, ◌∙◌, ◌≢◌, false, [], ◌∷◌, ◌++◌, append_assoc, append-nil, arith, All, All-imp,
}
use hexplus_v.Text.{Text, fields_from, is_space}
use hexplus_v.Text.Number.{IsDigit, format, format-IsDigit, format-ne-nil}

pub digit-not_space : (c : ℕ) → IsDigit c → is_space c ≡ false
unfolding is_space
digit-not_space c h = ground arith

-- A text of which no code point is a space.
abbrev pub IsWord : Text → Type 0
IsWord = All (λ c. is_space c ≡ false)

fields_from-IsWord :
    (word s : Text) → word ++ s ≢ [] → IsWord s → fields_from word s ≡ (word ++ s) ∷ []
unfolding fields_from
fields_from-IsWord [] [] n _ = absurd (n refl)
fields_from-IsWord (w ∷ word) [] n _ = rw (append-nil (w ∷ word))
fields_from-IsWord [] (c ∷ s) n (h, hs) =
    rw (fields_from, h) (fields_from-IsWord (c ∷ []) s (λ e. cc) hs)
fields_from-IsWord (w ∷ word) (c ∷ s) n (h, hs) =
    rw (fields_from, h)
      (fields_from-IsWord (w ∷ word ++ c ∷ []) s (λ e. cc) hs
        ∙ ap (λ t. t ∷ []) (append_assoc (w ∷ word) (c ∷ []) s))

pub fields_word : (s : Text) → s ≢ [] → IsWord s → fields_from [] s ≡ s ∷ []
fields_word s n h = fields_from-IsWord [] s n h

pub format-IsWord : (n : ℕ) → IsWord (format n)
format-IsWord n =
    All-imp IsDigit (λ c. is_space c ≡ false) (format n) digit-not_space (format-IsDigit n)

-- The number behind a keyword is the second word.
pub fields_number : (n : ℕ) → fields_from [] (format n) ≡ format n ∷ []
fields_number n = fields_word (format n) (format-ne-nil n) (format-IsWord n)
