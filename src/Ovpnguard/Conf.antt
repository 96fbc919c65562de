-- ===== src/Ovpnguard/Conf.antt =====
-- internal/ovpnguard/conf.go: the management lines in an OpenVPN configuration. Reading and writing
-- the file is left to the caller: the functions take its content.
pub mod Appended
pub mod Injected
use hexplus_v.Base.{
  ℕ, Bool, false, ◌&&◌, ◌||◌, not, Option, none, some, List, [], ◌∷◌, ◌++◌, map, leb, ◌==◌,
  if◌then◌else◌, drop, keep,
}
use mathlib.Core.Option
use hexplus_v.Text.{Text, codes, text_eq, text_mem, has_prefix, trim_right, trim_space, fields}
use hexplus_v.Text.Lines.{split, join, newline}

-- `paths.StateDir + "/run"`
abbrev run_dir : Text
run_dir = codes "/var/lib/hexplus/run"

unfoldable pub socket_path : Text → Text
socket_path inst = run_dir ++ codes "/ovpn-" ++ inst ++ codes ".sock"

abbrev is_digit : ℕ → Bool
is_digit c = leb b'0' c && leb c b'9'

-- The part of a name behind `server` that `^server(\d*)\.conf$` takes, or none.
unfoldable pub conf_number : Text → Option Text
conf_number [] = none
conf_number (c ∷ s) =
    let rest = Option.map (λ d. c ∷ d) (conf_number s) in
    if text_eq (c ∷ s) (codes ".conf") then some [] else if is_digit c then rest else none

abbrev after_slash : Text → Text → Text
after_slash seen [] = seen
after_slash seen (c ∷ s) = if c == b'/' then after_slash [] s else after_slash (seen ++ c ∷ []) s

-- `filepath.Base` of a path that does not end in a slash
unfoldable pub base : Text → Text
base path = after_slash [] path

-- `InstanceOfConf`: `none` is false
unfoldable pub instance_of_conf : Text → Option Text
unfolding base conf_number
instance_of_conf path =
    if has_prefix (codes "server") (base path)
    then elim (conf_number (drop 6 (base path))) [
      | none ↦ none
      | some [] ↦ some (codes "main")
      | some (d ∷ ds) ↦ some (d ∷ ds)
    ]
    else none

unfoldable pub conf_lines : Text → List Text
unfolding socket_path
conf_lines inst =
    (codes "management " ++ socket_path inst ++ codes " unix")
    ∷ codes "management-client-user root"
    ∷ []

-- Whether a line is a management directive that is not one of ours.
unfoldable pub is_foreign : List Text → Text → Bool
is_foreign ours t = elim (fields t) [
  | [] ↦ false
  | f ∷ _ ↦
      not (text_mem t ours)
      && (text_eq f (codes "management") || has_prefix (codes "management-") f)
]

foreign_line : List Text → List Text → Text
foreign_line ours [] = []
foreign_line ours (l ∷ ls) =
    if is_foreign ours (trim_space l) then trim_space l else foreign_line ours ls

unfoldable pub foreign_management : Text → List Text → Text
unfolding foreign_line is_foreign
foreign_management content ours = foreign_line ours (split newline content)

unfoldable pub inject_lines : Text → List Text → Text
inject_lines content lines =
    let have = map trim_space (split newline content) in
    elim (keep (λ l. not (text_mem l have)) lines) [
      | [] ↦ content
      | l ∷ add ↦
          trim_right (λ c. c == newline) content
          ++ newline ∷ (join newline (l ∷ add) ++ newline ∷ [])
    ]

unfoldable pub strip_lines : Text → List Text → Text
strip_lines content lines =
    join newline (keep (λ l. not (text_mem (trim_space l) lines)) (split newline content))

-- What `InjectConf` writes: an error, no change, or the new content.
pub data Injection : Type 0 where
  refused : Injection
  foreign : Text → Injection
  unchanged : Injection
  written : Text → Injection

unfoldable pub inject_conf : Text → Text → Injection
inject_conf path raw = elim (instance_of_conf path) [
  | none ↦ refused
  | some inst ↦ elim (foreign_management raw (conf_lines inst)) [
    | c ∷ f ↦ foreign (c ∷ f)
    | [] ↦
        let out = inject_lines raw (conf_lines inst) in
        if text_eq out raw then unchanged else written out
  ]
]

-- What `StripConf` writes.
unfoldable pub strip_conf : Text → Text → Injection
strip_conf path raw = elim (instance_of_conf path) [
  | none ↦ unchanged
  | some inst ↦
      let out = strip_lines raw (conf_lines inst) in
      if text_eq out raw then unchanged else written out
]
