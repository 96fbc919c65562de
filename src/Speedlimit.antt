-- ===== src/Speedlimit.antt =====
-- internal/speedlimit/speedlimit.go: the caps of the OpenVPN instances in their file, and the line in
-- the server configurations that calls the shaper. A file is its content, and a write succeeds or
-- returns an error as the arguments say.
pub mod Caps
pub mod Hooks
pub mod Refinement
use hexplus_v.Base.{
  ℕ, zero, suc, Bool, true, false, ◌||◌, not, Option, none, some, List, [], ◌∷◌, ◌++◌, ◌==◌,
  if◌then◌else◌, keep,
}
use hexplus_v.Base.Order.{sort}
use hexplus_v.Base.Int.{ℤ, pos, negsuc}
use hexplus_v.Maps.{lookup, insert, remove}
use hexplus_v.Text.{Text, codes, has_prefix, text_eq, text_lt, trim_right, trim_space}
use hexplus_v.Text.Cut.{cut}
use hexplus_v.Text.Lines.{join, newline, split}
use hexplus_v.Text.Number.{atoi, format}

-- `Limits`: the instances with a cap, in Mbps
abbrev pub Limits : Type 0
Limits = List (Text × ℕ)

-- `MainKey`
abbrev pub main_key : Text
main_key = codes "main"

-- The key of a line, the old form read as the primary instance.
unfoldable pub key_of : Text → Text
key_of key = if text_eq key (codes "mbps") then main_key else key

-- A line `key=value` whose value is read.
unfoldable pub load_value : Text → Option ℤ → Limits → Limits
unfolding key_of
load_value key none m = m
load_value key (some (negsuc n)) m = m
load_value key (some (pos zero)) m = m
load_value key (some (pos (suc n))) m = insert (key_of key) (suc n) m

-- One round of the loop of `LoadAll`, its line trimmed.
unfoldable pub load_line : Text → Limits → Limits
unfolding load_value
load_line [] m = m
load_line (c ∷ line) m =
    if has_prefix (codes "#") (c ∷ line) then m else elim (cut b'=' (c ∷ line)) [
      | none ↦ m
      | some (key, val) ↦ load_value (trim_space key) (atoi (trim_space val)) m
    ]

unfoldable pub load_lines : List Text → Limits → Limits
unfolding load_line
load_lines [] m = m
load_lines (l ∷ ls) m = load_lines ls (load_line (trim_space l) m)

-- `LoadAll`, `none` for a file that cannot be read
unfoldable pub load_all : Option Text → Limits
unfolding load_lines
load_all none = []
load_all (some content) = load_lines (split newline content) []

-- `limits[key]`, 0 for a key that is not in the map
unfoldable pub cap_of : Text → Limits → ℕ
cap_of key m = elim (lookup key m) [ none ↦ 0 | some v ↦ v ]

-- `LoadFor`
unfoldable pub load_for : Option Text → Text → ℕ
unfolding load_all cap_of
load_for conf key = cap_of key (load_all conf)

-- The lines of `writeConf` for the keys.
unfoldable pub conf_entries : Limits → List Text → Text
unfolding cap_of
conf_entries m [] = []
conf_entries m (k ∷ ks) = k ++ b'=' ∷ format (cap_of k m) ++ newline ∷ conf_entries m ks

abbrev pub first_comment : Text
first_comment = codes "# Generated by hexplus. Edit via menu → OPENVPN → [8]."

abbrev pub second_comment : Text
second_comment = codes "# main = primary server.conf; a number = extra instance ID."

abbrev pub keys_of : Limits → List Text
keys_of [] = []
keys_of ((k, v) ∷ m) = k ∷ keys_of m

-- What `writeConf` writes.
unfoldable pub conf_text : Limits → Text
unfolding conf_entries
conf_text m =
    first_comment ++ newline ∷ second_comment ++ newline ∷ conf_entries m (sort text_lt (keys_of m))

-- `learnAddressLine`
abbrev pub learn_address_line : Text
learn_address_line = codes "learn-address /usr/local/bin/hexplus-learn-address"

-- `strings.Contains`, the part first
unfoldable pub contains : Text → Text → Bool
contains part [] = has_prefix part []
contains part (c ∷ s) = has_prefix part (c ∷ s) || contains part s

-- A server configuration: its content, `none` if it cannot be read, and whether it can be written.
pub record ServerConf : Type 0 where
  pub content : Option Text
  pub writable : Bool

unfoldable pub hooked : Text → Text
hooked conf = trim_right (λ c. c == newline) conf ++ newline ∷ learn_address_line ++ newline ∷ []

abbrev pub is_hook : Text → Bool
is_hook line = text_eq (trim_space line) learn_address_line

unfoldable pub unhooked : Text → Text
unhooked conf = join newline (keep (λ l. not (is_hook l)) (split newline conf))

-- A configuration before those that are gone through after it.
abbrev before_rest : ServerConf → List ServerConf × Bool → List ServerConf × Bool
before_rest c (cs, done) = (c ∷ cs, done)

-- The write of one configuration, and the rest if it succeeds.
abbrev written :
    ServerConf → Text → List ServerConf → List ServerConf × Bool → List ServerConf × Bool
written c conf cs rest =
    if c.writable
    then before_rest (record { content = some conf; writable = true }) rest
    else (c ∷ cs, false)

-- One round of `InjectServerConf`, the content given and the rounds behind it.
abbrev inject_one :
    ServerConf → Option Text → List ServerConf → List ServerConf × Bool → List ServerConf × Bool
inject_one c none cs rest = before_rest c rest
inject_one c (some conf) cs rest =
    if contains learn_address_line conf then before_rest c rest else written c (hooked conf) cs rest

-- `InjectServerConf`: the configurations and whether it returned no error
unfoldable pub inject_server_conf : List ServerConf → List ServerConf × Bool
unfolding contains hooked
inject_server_conf [] = ([], true)
inject_server_conf (c ∷ cs) = inject_one c c.content cs (inject_server_conf cs)

abbrev strip_one :
    ServerConf → Option Text → List ServerConf → List ServerConf × Bool → List ServerConf × Bool
strip_one c none cs rest = before_rest c rest
strip_one c (some conf) cs rest = written c (unhooked conf) cs rest

-- `StripServerConf`
unfoldable pub strip_server_conf : List ServerConf → List ServerConf × Bool
unfolding unhooked
strip_server_conf [] = ([], true)
strip_server_conf (c ∷ cs) = strip_one c c.content cs (strip_server_conf cs)

-- What the shaper keeps on the disk: the caps, whether the script is there, and the configurations.
pub record Shaper : Type 0 where
  pub conf : Option Text
  pub script : Bool
  pub servers : List ServerConf

-- Which file operations of `SetLimit` succeed.
pub record Writes : Type 0 where
  pub removed : Bool
  pub deployed : Bool
  pub saved : Bool

abbrev stripped : Shaper → List ServerConf × Bool → Shaper × Bool
stripped s (cs, done) = (record { conf = none; script = s.script; servers = cs }, done)

-- The end of `SetLimit` without a cap, which is `DisableAll`.
unfoldable pub disable_all : Writes → Shaper → Shaper × Bool
unfolding strip_server_conf
disable_all w s = if w.removed then stripped s (strip_server_conf s.servers) else (s, false)

abbrev injected : Text → List ServerConf × Bool → Shaper × Bool
injected conf (cs, done) = (record { conf = some conf; script = true; servers = cs }, done)

-- The end of `SetLimit` with these caps.
unfoldable pub keep_limits : Writes → Limits → Shaper → Shaper × Bool
unfolding disable_all inject_server_conf conf_text
keep_limits w [] s = disable_all w s
keep_limits w (e ∷ m) s =
    if w.deployed
    then if w.saved
      then injected (conf_text (e ∷ m)) (inject_server_conf s.servers)
      else (record s { script = true }, false)
    else (s, false)

unfoldable pub change : Text → ℕ → Limits → Limits
change key zero m = remove key m
change key (suc n) m = insert key (suc n) m

-- `SetLimit`
unfoldable pub set_limit : Writes → Text → ℤ → Shaper → Shaper × Bool
unfolding keep_limits change load_all
set_limit w key (negsuc n) s = (s, false)
set_limit w key (pos n) s = keep_limits w (change key n (load_all s.conf)) s

-- `Forget`
unfoldable pub forget : Writes → Text → Shaper → Shaper × Bool
unfolding set_limit load_for
forget w key s = if load_for s.conf key == 0 then (s, true) else set_limit w key (pos 0) s
