-- ===== src/Firewall.antt =====
-- internal/firewall/input.go and rclocal.go: the INPUT rules of the services' ports, live and in
-- rc.local. The commands of iptables are parameters on a kernel state `K`; `none` is a failure. A
-- missing rc.local is the empty text.
pub mod Ports
pub mod Forward
pub mod Persisted
use hexplus_v.Base.{
  ℕ, zero, suc, Bool, true, false, ◌&&◌, ◌||◌, not, Option, none, some, List, [], ◌∷◌, ◌++◌, leb,
  ◌==◌, if◌then◌else◌, keep, any,
}
use hexplus_v.Text.{Text, codes, text_eq, trim_right, trim_space}
use hexplus_v.Text.Lines.{newline, split, join}
use hexplus_v.Text.Number.{format}

-- `InputSpec`
abbrev pub input_spec : Text → ℕ → List Text
input_spec proto port =
    codes "-p" ∷ proto ∷ codes "--dport" ∷ format port ∷ codes "-j" ∷ codes "ACCEPT" ∷ []

-- `validInput`
unfoldable pub valid_input : Text → ℕ → Bool
valid_input proto port =
    (text_eq proto (codes "tcp") || text_eq proto (codes "udp")) && (leb 1 port && leb port 65535)

-- `InputRCLocalLine`
unfoldable pub input_rc_local_line : Text → ℕ → Text
input_rc_local_line proto port =
    codes "iptables -w 5 -I INPUT 1 " ++ join b' ' (input_spec proto port)

abbrev is_exit : Text → Bool
is_exit l = text_eq (trim_space l) (codes "exit 0")

-- The line before the last "exit 0", or at the end.
unfoldable pub before_exit : Text → List Text → List Text
before_exit line [] = line ∷ []
before_exit line (l ∷ ls) =
    if is_exit l && not (any is_exit ls) then line ∷ l ∷ ls else l ∷ before_exit line ls

abbrev rc_local_skeleton : Text
rc_local_skeleton = codes "#!/bin/sh -e\nexit 0\n"

abbrev or_skeleton : Text → Text
or_skeleton content = if text_eq (trim_space content) [] then rc_local_skeleton else content

-- `addRCLocalLine`
unfoldable pub add_rc_local_line : Text → Text → Text
unfolding before_exit
add_rc_local_line content line =
    let whole = or_skeleton content in
    let lines = split newline (trim_right (λ c. c == newline) whole) in
    if any (λ l. text_eq (trim_space l) line) lines
    then whole
    else join newline (before_exit line lines) ++ newline ∷ []

-- `removeRCLocalLines`
unfoldable pub remove_rc_local_lines : Text → (Text → Bool) → Text
remove_rc_local_lines content drops =
    join newline (keep (λ l. not (drops (trim_space l))) (split newline content))

module _ {K : Type 0} (check : List Text → K → Bool)
    (insert delete : List Text → K → Option K) where
  -- `ApplyInput`: the kernel afterwards, and whether it went well.
  unfoldable pub apply_input : Text → ℕ → K → K × Bool
  apply_input proto port k =
      if not (valid_input proto port)
      then (k, false)
      else if check (input_spec proto port) k
      then (k, true)
      else elim (insert (input_spec proto port) k) [ none ↦ (k, false) | some k' ↦ (k', true) ]

  -- Deletes until one fails, a number of times at most.
  unfoldable pub delete_copies : ℕ → List Text → K → K
  delete_copies zero spec k = k
  delete_copies (suc n) spec k = elim (delete spec k) [
    | none ↦ k
    | some k' ↦ delete_copies n spec k'
  ]

  -- `RemoveInput`
  unfoldable pub remove_input : Text → ℕ → K → K
  unfolding delete_copies
  remove_input proto port k =
      if valid_input proto port then delete_copies 32 (input_spec proto port) k else k

  -- `OpenPort`: the kernel, rc.local, and whether it went well.
  unfoldable pub open_port : Text → ℕ → K → Text → K × Text × Bool
  unfolding apply_input
  open_port proto port k rc_local =
      let (k', opened) = apply_input proto port k in
      if opened
      then (k', add_rc_local_line rc_local (input_rc_local_line proto port), true)
      else (k', rc_local, false)

  -- `ClosePort`
  unfoldable pub close_port : (Text → ℕ → Bool) → Text → ℕ → K → Text → K × Text × Bool
  unfolding remove_input
  close_port holds proto port k rc_local =
      if not (valid_input proto port)
      then (k, rc_local, false)
      else if holds proto port
      then (k, rc_local, true)
      else (
        remove_input proto port k,
        remove_rc_local_lines rc_local (λ l. text_eq l (input_rc_local_line proto port)),
        true,
      )

  -- `MoveInput`
  unfoldable pub move_input :
      (Text → ℕ → Bool) → Text → (old_port new_port : ℕ) → K → Text → K × Text × Bool
  unfolding remove_input open_port
  move_input holds proto old_port new_port k rc_local =
      if not (valid_input proto new_port)
      then (k, rc_local, false)
      else if not (old_port == new_port) && valid_input proto old_port && not (holds proto old_port)
      then open_port proto new_port (remove_input proto old_port k)
          (remove_rc_local_lines rc_local (λ l. text_eq l (input_rc_local_line proto old_port)))
      else open_port proto new_port k rc_local
