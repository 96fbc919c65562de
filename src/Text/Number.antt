-- ===== src/Text/Number.antt =====
-- `strconv`: decimal numbers, printed and parsed.
use hexplus_v.Base.{
  ℕ, zero, suc, ◌+◌, ◌-◌, ◌*◌, ◌/◌, ◌%◌, ◌^◌, ◌≤◌, ◌<◌, ◌≡◌, refl, ◌≢◌, inl, inr, Bool, true, false,
  ◌||◌, Option, none, some, [], ◌∷◌, arith, ltb, leb, ◌==◌, if◌then◌else◌, Bool-cases, All,
}
use hexplus_v.Base.Int.{ℤ, pos, negsuc}
use hexplus_v.Text.{Text}

-- `strconv.FormatUint(n, 10)` and `strconv.Itoa` at a number that is not negative, with fuel.
digits : ℕ → ℕ → Text → Text
digits zero n out = out
digits (suc fuel) n out =
    let more = digits fuel (n / 10) ((b'0' + n % 10) ∷ out) in
    if ltb n 10 then (b'0' + n) ∷ out else more

unfoldable pub format : ℕ → Text
unfolding digits
format n = digits (suc n) n []

-- `strconv.Itoa`
unfoldable pub itoa : ℤ → Text
unfolding format
itoa (pos n) = format n
itoa (negsuc n) = b'-' ∷ format (suc n)

-- What a number parser of `strconv` returns: the value, `ErrSyntax` or `ErrRange`.
pub data Parsed : Type 0 where
  value : ℕ → Parsed
  syntax_error : Parsed
  range_error : Parsed

abbrev pub max_u64 : ℕ
max_u64 = 2 ^ 64 - 1

-- The loop of `strconv.ParseUint(s, 10, 64)`: it stops at the first digit that overflows.
scan : Text → ℕ → Parsed
scan [] n = value n
scan (c ∷ s) n =
    if ltb c b'0' || ltb b'9' c
    then syntax_error
    else if ltb max_u64 (n * 10 + (c - b'0'))
    then range_error
    else scan s (n * 10 + (c - b'0'))

unfoldable pub parse_uint : Text → Parsed
unfolding scan
parse_uint [] = syntax_error
parse_uint (c ∷ s) = scan (c ∷ s) 0

-- The number returned beside an error: 0 at bad syntax, the largest at an overflow.
abbrev pub uint_value : Parsed → ℕ
uint_value (value n) = n
uint_value syntax_error = 0
uint_value range_error = max_u64

pub data ParsedInt : Type 0 where
  int_value : ℤ → ParsedInt
  int_syntax : ParsedInt
  int_range : ℤ → ParsedInt

min_i64 : ℤ
min_i64 = negsuc (2 ^ 63 - 1)

-- The range check of `strconv.ParseInt`, the sign first.
signed : Bool → Parsed → ParsedInt
unfolding min_i64
signed neg syntax_error = int_syntax
signed true range_error = int_range min_i64
signed false range_error = int_range (pos (2 ^ 63 - 1))
signed false (value n) = if leb (2 ^ 63) n then int_range (pos (2 ^ 63 - 1)) else int_value (pos n)
signed true (value zero) = int_value (pos 0)
signed true (value (suc n)) =
    if ltb (2 ^ 63) (suc n) then int_range min_i64 else int_value (negsuc n)

-- `strconv.ParseInt(s, 10, 64)`
unfoldable pub parse_int : Text → ParsedInt
unfolding signed parse_uint
parse_int [] = int_syntax
parse_int (c ∷ s) =
    if c == b'-'
    then signed true (parse_uint s)
    else if c == b'+'
    then signed false (parse_uint s)
    else signed false (parse_uint (c ∷ s))

-- The number of a parse whose error is dropped.
abbrev pub value_or_edge : ParsedInt → ℤ
value_or_edge (int_value n) = n
value_or_edge int_syntax = pos 0
value_or_edge (int_range n) = n

abbrev pub ok_value : ParsedInt → Option ℤ
ok_value (int_value n) = some n
ok_value _ = none

-- `strconv.Atoi`, with `none` for an error
unfoldable pub atoi : Text → Option ℤ
unfolding parse_int
atoi s = ok_value (parse_int s)

scan_last : (n : ℕ) (out : Text) → n ≤ max_u64 → scan ((b'0' + n % 10) ∷ out) (n / 10) ≡ scan out n
unfolding scan
scan_last n out h = ground arith

scan-digits :
    (fuel n : ℕ) (out : Text) → n < fuel → n ≤ max_u64 → scan (digits fuel n out) 0 ≡ scan out n
unfolding digits
scan-digits zero n out h _ = absurd (omega arith)
scan-digits (suc fuel) n out h fits =
    ground
      (arith, scan-digits fuel (n / 10) ((b'0' + n % 10) ∷ out), scan_last n out fits, first_digit)
  where
    first_digit : n < 10 → scan ((b'0' + n) ∷ out) 0 ≡ scan out n
    first_digit small = unfold scan in ground arith

digits-ne-nil : (fuel n : ℕ) (out : Text) → n < fuel → digits fuel n out ≢ []
unfolding digits
digits-ne-nil zero n out h = absurd (omega arith)
digits-ne-nil (suc fuel) n out h =
    ground (arith, digits-ne-nil fuel (n / 10) ((b'0' + n % 10) ∷ out))

parse_uint-scan : (s : Text) → s ≢ [] → parse_uint s ≡ scan s 0
unfolding parse_uint
parse_uint-scan [] h = absurd (h refl)
parse_uint-scan (c ∷ s) h = refl

-- Every number that fits 64 bits is read back from its print.
pub parse_uint-format : (n : ℕ) → n ≤ max_u64 → parse_uint (format n) ≡ value n
unfolding format scan
parse_uint-format n h =
    rw (parse_uint-scan (format n) (digits-ne-nil (suc n) n [] (omega arith)))
      (scan-digits (suc n) n [] (omega arith) h)

abbrev pub IsDigit : ℕ → Type 0
IsDigit c = (b'0' ≤ c) × (c ≤ b'9')

digits-IsDigit :
    (fuel n : ℕ) (out : Text) → n < fuel → All IsDigit out → All IsDigit (digits fuel n out)
unfolding digits
digits-IsDigit zero n out h _ = absurd (omega arith)
digits-IsDigit (suc fuel) n out h rest = elim (Bool-cases (ltb n 10)) [
  | inl e ↦ rw e (ground arith)
  | inr e ↦
      rw e
        (digits-IsDigit fuel (n / 10) ((b'0' + n % 10) ∷ out) (ground arith) ((ground arith), rest))
]

pub format-IsDigit : (n : ℕ) → All IsDigit (format n)
unfolding format
format-IsDigit n = digits-IsDigit (suc n) n [] (omega arith) tt

pub format-ne-nil : (n : ℕ) → format n ≢ []
unfolding format
format-ne-nil n = digits-ne-nil (suc n) n [] (omega arith)

signed_fits :
    (neg : Bool) (p : Parsed) (n : ℕ) → ok_value (signed neg p) ≡ some (pos n) → n < 2 ^ 63
unfolding signed
signed_fits neg syntax_error n e = ground (arith, e)
signed_fits true range_error n e = ground (arith, e)
signed_fits false range_error n e = ground (arith, e)
signed_fits false (value k) n e = ground (arith, e)
signed_fits true (value zero) n e = ground (arith, e)
signed_fits true (value (suc k)) n e = ground (arith, e)

-- A number that `Atoi` reads fits an `int`.
pub atoi_fits : (s : Text) (n : ℕ) → atoi s ≡ some (pos n) → n < 2 ^ 63
unfolding atoi
atoi_fits [] n e = cc
atoi_fits (c ∷ s) n e = elim (Bool-cases (c == b'-')) [
  | inl minus ↦ signed_fits true (parse_uint s) n (rw minus at e)
  | inr other ↦ elim (Bool-cases (c == b'+')) [
    | inl plus ↦ signed_fits false (parse_uint s) n (rw (other, plus) at e)
    | inr digit ↦ signed_fits false (parse_uint (c ∷ s)) n (rw (other, digit) at e)
  ]
]

parse_digits :
    (s : Text) (n : ℕ) → All IsDigit s → parse_uint s ≡ value n → n < 2 ^ 63 → atoi s ≡ some (pos n)
unfolding atoi
parse_digits [] n h e b = ground arith
parse_digits (c ∷ s) n h e b = ground (arith, e)

-- A number that fits an `int` is read back from its print.
pub atoi-format : (n : ℕ) → n < 2 ^ 63 → atoi (format n) ≡ some (pos n)
atoi-format n h = parse_digits (format n) n (format-IsDigit n) (parse_uint-format n (omega arith)) h
