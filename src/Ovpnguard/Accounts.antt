-- ===== src/Ovpnguard/Accounts.antt =====
-- internal/ovpnguard/run.go: what the guard knows of accounts (`loadPolicy`, `limitFor`,
-- `readV1Limits`, `parseShadow`, `refusal`, `hasDuplicateCN`).
pub mod Verdict
use hexplus_v.Base.{
  ℕ, ◌/◌, Bool, false, ◌&&◌, ◌||◌, not, Option, none, some, List, [], ◌∷◌, map, ◌==◌, if◌then◌else◌,
  drop, any,
}
use hexplus_v.Base.Int.{ℤ, pos, negsuc, ltb_ℤ, eqb_ℤ}
use mathlib.Core.Option
use hexplus_v.Maps.{lookup, insert}
use hexplus_v.Ovpnguard.Decide.{Policy}
use hexplus_v.Text.{Text, codes, text_eq, has_prefix, trim_right, trim_space, fields}
use hexplus_v.Text.Lines.{split, newline}
use hexplus_v.Text.Number.{ParsedInt, int_value, int_syntax, int_range, parse_int, atoi}

-- `m[name]` of a `map[string]int`: 0 where the key is missing.
abbrev int_of : Text → List (Text × ℤ) → ℤ
int_of k m = elim (lookup k m) [ none ↦ pos 0 | some n ↦ n ]

-- `l > 0`
abbrev is_positive : ℤ → Bool
is_positive n = ltb_ℤ (pos 0) n

unfoldable pub limit_for : Text → List (Text × ℤ) → List (Text × ℤ) → ℤ
limit_for name v2 v1 =
    if is_positive (int_of name v2)
    then int_of name v2
    else if is_positive (int_of name v1)
    then int_of name v1
    else pos 0

-- One line of usuarios.db, "name limit", by its words.
add_v1_limit : List Text → List (Text × ℤ) → List (Text × ℤ)
add_v1_limit (name ∷ n ∷ rest) out = elim (atoi n) [ none ↦ out | some l ↦ insert name l out ]
add_v1_limit _ out = out

v1_limits : List Text → List (Text × ℤ) → List (Text × ℤ)
v1_limits [] out = out
v1_limits (l ∷ ls) out = v1_limits ls (add_v1_limit (fields l) out)

-- `readV1Limits`: no limits from a file that is missing or cannot be read.
unfoldable pub read_v1_limits : Option Text → List (Text × ℤ)
unfolding v1_limits add_v1_limit
read_v1_limits none = []
read_v1_limits (some raw) = v1_limits (split newline raw) []

pub record ShadowEntry : Type 0 where
  pub hash : Text
  pub expiry : Text

-- `f[7]`, or "" where there are fewer than eight fields.
abbrev expiry_field : List Text → Text
expiry_field f = elim (drop 7 f) [ [] ↦ [] | x ∷ _ ↦ x ]

-- One line of /etc/shadow, by its fields.
add_shadow : List Text → List (Text × ShadowEntry) → List (Text × ShadowEntry)
add_shadow ((c ∷ name) ∷ h ∷ rest) out =
    insert (c ∷ name) (record { hash = h; expiry = expiry_field ((c ∷ name) ∷ h ∷ rest) }) out
add_shadow _ out = out

shadow_entries : List Text → List (Text × ShadowEntry) → List (Text × ShadowEntry)
shadow_entries [] out = out
shadow_entries (l ∷ ls) out =
    shadow_entries ls (add_shadow (split b':' (trim_right (λ c. c == b'\r') l)) out)

unfoldable pub parse_shadow : Text → List (Text × ShadowEntry)
unfolding shadow_entries add_shadow
parse_shadow content = shadow_entries (split newline content) []

abbrev pub deleted : Text
deleted = codes "บัญชีถูกลบแล้ว"

abbrev pub locked : Text
locked = codes "บัญชีถูกล็อก"

abbrev pub expired : Text
expired = codes "บัญชีหมดอายุ"

-- `e[0] == "" || HasPrefix(e[0], "!") || HasPrefix(e[0], "*")`
unfoldable pub is_locked : Text → Bool
unfolding text_eq has_prefix
is_locked h = text_eq h [] || has_prefix (codes "!") h || has_prefix (codes "*") h

-- What the expiry field says on a day.
unfoldable pub expiry_refusal : Text → ℤ → Text
expiry_refusal exp today =
    if text_eq exp [] || text_eq exp (codes "-1") then [] else elim (parse_int exp) [
      | int_value day ↦ if ltb_ℤ today day then [] else expired
      | int_syntax ↦ []
      | int_range _ ↦ []
    ]

-- `refusal`; the map is nil (`none`) where /etc/shadow could not be read.
unfoldable pub refusal : Text → Option (List (Text × ShadowEntry)) → ℤ → Text
refusal name none today = []
refusal name (some shadow) today = elim (lookup name shadow) [
  | none ↦ deleted
  | some e ↦ if is_locked e.hash then locked else expiry_refusal e.expiry today
]

unfoldable pub has_duplicate_cn : Text → Bool
has_duplicate_cn conf =
    any (λ l. text_eq (trim_space l) (codes "duplicate-cn")) (split newline conf)

-- What `loadPolicy` reads: `none` for what cannot be read.
pub record Sources : Type 0 where
  pub user_db : Option (List (Text × ℤ))
  pub v1_db : Option Text
  pub shadow : Option Text
  pub primary_conf : Option Text
  pub unix_now : ℕ

abbrev v2_limits : Option (List (Text × ℤ)) → List (Text × ℤ)
v2_limits none = []
v2_limits (some db) = db

-- MULTILOGIN is off: the configuration is there, and without duplicate-cn.
abbrev pub single : Option Text → Bool
single none = false
single (some raw) = not (has_duplicate_cn raw)

unfoldable pub load_limit : Sources → Text → ℤ
load_limit src name =
    let l = limit_for name (v2_limits src.user_db) (read_v1_limits src.v1_db) in
    if single src.primary_conf && not (eqb_ℤ l (pos 1)) then pos 1 else l

unfoldable pub load_refusal : Sources → Text → Text
load_refusal src name =
    let today = pos (src.unix_now / 86400) in
    refusal name (Option.map parse_shadow src.shadow) today

unfoldable pub load_policy : Sources → Policy
load_policy src = record { limit = some (load_limit src); refused = some (load_refusal src) }
