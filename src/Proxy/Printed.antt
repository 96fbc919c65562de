-- ===== src/Proxy/Printed.antt =====
-- internal/proxy/handler.go: what a client's bytes become in the log, and the operator's escapes in the
-- response.
use hexplus_v.Base.{
  ℕ, zero, suc, ◌*◌, ◌/◌, ◌%◌, ◌≤◌, ◌<◌, ◌≡◌, refl, inl, inr, true, false, [], ◌∷◌, arith,
  Bool-cases, length, take, length-append, All, All-append,
}
use hexplus_v.Proxy.Header.{
  expand_escapes, hex_digit, literal_crlf, literal_newline, crlf, preview_all, preview_byte,
  preview_bytes, replace_all, replace_from,
}
use hexplus_v.Text.{Text, has_prefix}

-- A printable ASCII byte.
abbrev pub IsPrintable : ℕ → Type 0
IsPrintable c = (32 ≤ c) × (c < 127)

hex_digit-IsPrintable : (d : ℕ) → d < 16 → IsPrintable (hex_digit d)
unfolding hex_digit
hex_digit-IsPrintable d h = ground arith

preview_byte-IsPrintable : (b : ℕ) → b < 256 → All IsPrintable (preview_byte b)
unfolding preview_byte
preview_byte-IsPrintable b h = ground (
  arith,
  hex_digit-IsPrintable (b / 16) (omega arith),
  hex_digit-IsPrintable (b % 16) (omega arith),
)

preview_all-IsPrintable : (buf : Text) → All (λ b. b < 256) buf → All IsPrintable (preview_all buf)
unfolding preview_all
preview_all-IsPrintable [] _ = tt
preview_all-IsPrintable (b ∷ buf) (h, hs) =
    All-append IsPrintable (preview_byte b) (preview_all buf) (preview_byte-IsPrintable b h)
      (preview_all-IsPrintable buf hs)

take-All : (n : ℕ) (buf : Text) → All (λ b. b < 256) buf → All (λ b. b < 256) (take n buf)
take-All zero buf _ = tt
take-All (suc n) [] _ = tt
take-All (suc n) (b ∷ buf) (h, hs) = (h, take-All n buf hs)

length-preview_byte : (b : ℕ) → length (preview_byte b) ≤ 4
unfolding preview_byte
length-preview_byte b = ground arith

length-preview_all : (limit : ℕ) (buf : Text) → length (preview_all (take limit buf)) ≤ 4 * limit
unfolding preview_all
length-preview_all zero buf = omega arith
length-preview_all (suc n) [] = omega arith
length-preview_all (suc n) (b ∷ buf) = omega (
  arith,
  length-append (preview_byte b) (preview_all (take n buf)),
  length-preview_byte b,
  length-preview_all n buf,
)

-- Whatever bytes a client sends, what is logged of them is printable ASCII, of at most four bytes for
-- each byte of the limit: no client can put a line break or a control sequence into the journal.
pub preview_bytes-IsPrintable :
    (buf : Text) (limit : ℕ)
    → All (λ b. b < 256) buf
    → All IsPrintable (preview_bytes buf limit) × (length (preview_bytes buf limit) ≤ 4 * limit)
unfolding preview_bytes
preview_bytes-IsPrintable buf limit h =
    (preview_all-IsPrintable (take limit buf) (take-All limit buf h), length-preview_all limit buf)

-- A literal `\n` stands nowhere in a text.
abbrev pub IsExpanded : Text → Type 0
IsExpanded [] = Unit
IsExpanded (c ∷ s) = (has_prefix literal_newline (c ∷ s) ≡ false) × IsExpanded s

replace_first :
    (s : Text)
    → has_prefix (b'n' ∷ []) (replace_from literal_newline (b'\n' ∷ []) 0 s) ≡ true
    → has_prefix (b'n' ∷ []) s ≡ true
unfolding replace_from has_prefix
replace_first [] h = h
replace_first (c ∷ s) h = ground arith

kept-IsExpanded :
    (c : ℕ) (s t : Text)
    → has_prefix literal_newline (c ∷ s) ≡ false
    → (has_prefix (b'n' ∷ []) t ≡ true → has_prefix (b'n' ∷ []) s ≡ true)
    → has_prefix literal_newline (c ∷ t) ≡ false
unfolding has_prefix
kept-IsExpanded c s t h first = ground (arith, first)

replace_from-IsExpanded :
    (n : ℕ) (s : Text) → IsExpanded (replace_from literal_newline (b'\n' ∷ []) n s)
unfolding replace_from
replace_from-IsExpanded n [] = tt
replace_from-IsExpanded (suc n) (c ∷ s) = replace_from-IsExpanded n s
replace_from-IsExpanded zero (c ∷ s) = elim (Bool-cases (has_prefix literal_newline (c ∷ s))) [
  | inl e ↦ rw e ((unfold has_prefix in refl), replace_from-IsExpanded 1 s)
  | inr e ↦ rw e (
    kept-IsExpanded c s (replace_from literal_newline (b'\n' ∷ []) 0 s) e (replace_first s),
    replace_from-IsExpanded 0 s,
  )
]

-- No literal `\n` is left in what `expandEscapes` returns, also where expanding one brings others
-- together.
pub expand_escapes-IsExpanded : (s : Text) → IsExpanded (expand_escapes s)
unfolding expand_escapes
expand_escapes-IsExpanded s = replace_from-IsExpanded 0 (replace_all literal_crlf crlf s)
