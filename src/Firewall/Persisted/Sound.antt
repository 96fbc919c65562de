-- ===== src/Firewall/Persisted/Sound.antt =====
-- internal/firewall/input.go: a line that is read back is one that was written.
use hexplus_v.Base.{
  ℕ, ◌≡◌, sym, ap, inl, inr, true, ◌&&◌, Option, none, some, [], arith, Bool-cases, Option-cases,
}
use hexplus_v.Base.Int.{ℤ, pos, negsuc}
use hexplus_v.Firewall.{input_rc_local_line, valid_input}
use hexplus_v.Firewall.Persisted.{
  input_words, checked_port, input_rc_local_prefix, parse_input_rc_local_line,
}
use hexplus_v.Text.{Text, fields, has_prefix, text_eq, text_eq_iff, trim_space}
use hexplus_v.Text.Number.{atoi}

proto_in : Option (Text × ℕ) → Text
proto_in none = []
proto_in (some (proto, port)) = proto

port_in : Option (Text × ℕ) → ℕ
port_in none = 0
port_in (some (proto, port)) = port

checked_port_sound :
    (line proto p : Text) (n : ℕ) (o : Option ℤ)
    → checked_port line proto o ≡ some (p, n)
    → (trim_space line ≡ input_rc_local_line p n) × (valid_input p n ≡ true)
unfolding checked_port proto_in port_in
checked_port_sound line proto p n none e = ground (arith, e)
checked_port_sound line proto p n (some (negsuc m)) e = ground (arith, e)
checked_port_sound line proto p n (some (pos m)) e =
    elim (Bool-cases
      (valid_input proto m && text_eq (input_rc_local_line proto m) (trim_space line))) [
        | inr odd ↦ ground (arith, rw odd at e)
        | inl fine ↦
            let same : ◌≡◌ {A = Option (Text × ℕ)} (some (proto, m)) (some (p, n)) = rw fine at e in
            let same_proto : proto ≡ p = ap proto_in same in
            let same_port : m ≡ n = ap port_in same in
            rw (sym same_proto, sym same_port)
              (
                ground (arith, fine, text_eq_iff (input_rc_local_line proto m) (trim_space line)),
                ground (arith, fine),
              )
      ]

-- A line of rc.local that is read as a port's is, without the space around it, the very line that
-- opening the port writes, and the port is a valid one: no other line is taken for a rule.
pub parse_input_rc_local_line_lem :
    (line proto : Text) (port : ℕ)
    → parse_input_rc_local_line line ≡ some (proto, port)
    → (trim_space line ≡ input_rc_local_line proto port) × (valid_input proto port ≡ true)
unfolding parse_input_rc_local_line
parse_input_rc_local_line_lem line proto port e =
    elim (Bool-cases (has_prefix input_rc_local_prefix (trim_space line))) [
      | inr other ↦ ground (arith, rw other at e)
      | inl ours ↦ elim (Option-cases (input_words (fields line))) [
        | inl gone ↦ ground (arith, rw (parse_input_rc_local_line, ours, gone) at e)
        | inr ((p, n), found) ↦
            checked_port_sound line p proto port (atoi n)
              (rw (parse_input_rc_local_line, ours, found) at e)
      ]
    ]
