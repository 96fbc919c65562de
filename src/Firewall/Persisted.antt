-- ===== src/Firewall/Persisted.antt =====
-- internal/firewall/input.go and forward.go: the rules that an uninstall finds in rc.local and in the
-- FORWARD chain. `forward_rules` is the output of `iptables -S FORWARD`.
pub mod Sound
use hexplus_v.Base.{ℕ, Bool, true, false, ◌&&◌, Option, none, some, List, [], ◌∷◌, if◌then◌else◌}
use hexplus_v.Base.Int.{ℤ, pos, negsuc}
use hexplus_v.Firewall.{input_rc_local_line, valid_input, remove_input, remove_rc_local_lines}
use hexplus_v.Firewall.Forward.{is_our_forward_rule}
use hexplus_v.Text.{Text, codes, fields, has_prefix, text_eq, trim_space}
use hexplus_v.Text.Lines.{newline, split}
use hexplus_v.Text.Number.{atoi}

-- `InputRCLocalPrefix`
abbrev pub input_rc_local_prefix : Text
input_rc_local_prefix = codes "iptables -w 5 -I INPUT 1 -p "

-- The protocol and the port of twelve words, if the others are right.
unfoldable pub input_words : List Text → Option (Text × Text)
input_words (a ∷ b ∷ c ∷ d ∷ e ∷ f ∷ g ∷ proto ∷ dport ∷ port ∷ jump ∷ accept ∷ []) =
    if text_eq dport (codes "--dport")
      && (text_eq jump (codes "-j") && text_eq accept (codes "ACCEPT"))
    then some (proto, port)
    else none
input_words _ = none

-- The port, if the line is the one that `InputRCLocalLine` writes for it.
unfoldable pub checked_port : Text → Text → Option ℤ → Option (Text × ℕ)
checked_port line proto none = none
checked_port line proto (some (negsuc n)) = none
checked_port line proto (some (pos n)) =
    if valid_input proto n && text_eq (input_rc_local_line proto n) (trim_space line)
    then some (proto, n)
    else none

-- `ParseInputRCLocalLine`
unfoldable pub parse_input_rc_local_line : Text → Option (Text × ℕ)
unfolding input_words checked_port
parse_input_rc_local_line line =
    if has_prefix input_rc_local_prefix (trim_space line)
    then elim (input_words (fields line)) [
      | none ↦ none
      | some (proto, port) ↦ checked_port line proto (atoi port)
    ]
    else none

-- `ours` of `RemovePersistedInput`; `holds` is its `keep`.
unfoldable pub own_port : (Text → ℕ → Bool) → Text → Option (Text × ℕ)
unfolding parse_input_rc_local_line
own_port holds line = elim (parse_input_rc_local_line line) [
  | none ↦ none
  | some (proto, port) ↦ if holds proto port then none else some (proto, port)
]

abbrev is_own : (Text → ℕ → Bool) → Text → Bool
is_own holds line = elim (own_port holds line) [ none ↦ false | some own ↦ true ]

module _ {K : Type 0} (check : List Text → K → Bool)
    (insert delete : List Text → K → Option K) where
  -- The first loop of `RemovePersistedInput`.
  unfoldable pub remove_own : (Text → ℕ → Bool) → List Text → K → K
  unfolding own_port
  remove_own holds [] k = k
  remove_own holds (l ∷ ls) k = elim (own_port holds l) [
    | none ↦ remove_own holds ls k
    | some (proto, port) ↦ remove_own holds ls (remove_input check insert delete proto port k)
  ]

  -- `RemovePersistedInput`: the kernel and rc.local.
  unfoldable pub remove_persisted_input : (Text → ℕ → Bool) → K → Text → K × Text
  unfolding remove_own
  remove_persisted_input holds k rc_local =
      (remove_own holds (split newline rc_local) k, remove_rc_local_lines rc_local (is_own holds))

  delete_if_own : List Text → K → K
  delete_if_own (a ∷ chain ∷ spec) k =
      if text_eq a (codes "-A") && text_eq chain (codes "FORWARD") && is_our_forward_rule spec
      then elim (delete spec k) [ none ↦ k | some k' ↦ k' ]
      else k
  delete_if_own _ k = k

  -- `RemoveForward`
  unfoldable pub remove_forward : (forward_rules : List Text) → K → K
  unfolding delete_if_own
  remove_forward [] k = k
  remove_forward (line ∷ lines) k = remove_forward lines (delete_if_own (fields line) k)
