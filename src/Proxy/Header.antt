-- ===== src/Proxy/Header.antt =====
-- internal/proxy/handler.go: what is read out of the first bytes of a client and what is written into
-- the log and the response. Texts are lists of bytes here.
use hexplus_v.Base.{
  ℕ, zero, suc, ◌+◌, ◌-◌, ◌/◌, ◌%◌, ◌&&◌, Option, none, some, [], ◌∷◌, ◌++◌, ltb, leb, ◌==◌,
  if◌then◌else◌, length, take, drop,
}
use hexplus_v.Text.{Text, codes, has_prefix, trim_space}

-- What stands behind the first occurrence of a text, by `bytes.Index`.
unfoldable pub behind : Text → Text → Option Text
behind needle [] = if has_prefix needle [] then some [] else none
behind needle (c ∷ s) =
    let later = behind needle s in
    if has_prefix needle (c ∷ s) then some (drop (length needle) (c ∷ s)) else later

abbrev before_later : ℕ → Option Text → Option Text
before_later c none = none
before_later c (some s) = some (c ∷ s)

-- What stands before the first occurrence.
unfoldable pub before : Text → Text → Option Text
before needle [] = if has_prefix needle [] then some [] else none
before needle (c ∷ s) =
    let later = before needle s in
    if has_prefix needle (c ∷ s) then some [] else before_later c later

abbrev pub crlf : Text
crlf = b'\r' ∷ b'\n' ∷ []

-- The value that begins with `rest`.
abbrev header_value : Option Text → Text
header_value none = []
header_value (some value) = trim_space value

abbrev header_rest : Option Text → Text
header_rest none = []
header_rest (some rest) = header_value (before crlf rest)

-- `findHeader`
unfoldable pub find_header : Text → Text → Text
unfolding behind before
find_header head name = header_rest (behind (name ++ codes ": ") head)

-- The round of `strings.ReplaceAll` with this many bytes of a match left to skip.
unfoldable pub replace_from : Text → Text → ℕ → Text → Text
replace_from old new n [] = []
replace_from old new (suc n) (c ∷ s) = replace_from old new n s
replace_from old new zero (c ∷ s) =
    let rest = replace_from old new (length old - 1) s in
    let kept = c ∷ replace_from old new 0 s in if has_prefix old (c ∷ s) then new ++ rest else kept

-- `strings.ReplaceAll` of a text that is not empty
unfoldable pub replace_all : Text → Text → Text → Text
unfolding replace_from
replace_all old new s = replace_from old new 0 s

abbrev pub literal_crlf : Text
literal_crlf = b'\\' ∷ b'r' ∷ b'\\' ∷ b'n' ∷ []

abbrev pub literal_newline : Text
literal_newline = b'\\' ∷ b'n' ∷ []

-- `expandEscapes`
unfoldable pub expand_escapes : Text → Text
unfolding replace_all
expand_escapes s = replace_all literal_newline (b'\n' ∷ []) (replace_all literal_crlf crlf s)

-- A digit of `%02x`.
unfoldable pub hex_digit : ℕ → ℕ
hex_digit d = if ltb d 10 then b'0' + d else b'a' + (d - 10)

-- What `previewBytes` writes for one byte.
unfoldable pub preview_byte : ℕ → Text
unfolding hex_digit
preview_byte b =
    if b == b'\r'
    then codes "\\r"
    else if b == b'\n'
    then codes "\\n"
    else if b == b'\t'
    then codes "\\t"
    else if b == b'\\'
    then codes "\\\\"
    else if leb 32 b && ltb b 127
    then b ∷ []
    else b'\\' ∷ b'x' ∷ hex_digit (b / 16) ∷ hex_digit (b % 16) ∷ []

-- The bytes one by one.
unfoldable pub preview_all : Text → Text
preview_all [] = []
preview_all (b ∷ buf) = preview_byte b ++ preview_all buf

-- `previewBytes`
unfoldable pub preview_bytes : Text → ℕ → Text
unfolding preview_all preview_byte
preview_bytes buf limit = preview_all (take limit buf)
