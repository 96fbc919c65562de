-- ===== src/Tests/Limits.antt =====
-- internal/speedlimit: caps that are set and forgotten in one file.
use hexplus_v.Base.{◌≡◌, refl, true, false, none, some, List, [], ◌∷◌, ◌++◌, arith}
use hexplus_v.Base.Int.{pos}
use hexplus_v.Speedlimit.{Shaper, Writes, load_for, main_key, set_limit}
use hexplus_v.Speedlimit.Caps.{IsKey}
use hexplus_v.Speedlimit.Hooks.{HooksFollow, set_limit-HooksFollow}
use hexplus_v.Speedlimit.Refinement.{
  Command, set_cap, forget_cap, apply_commands, execute_commands, execute_commands-apply,
}
use hexplus_v.Text.{Text, codes, has_prefix, text_eq, text_ne, trim_space}
use hexplus_v.Text.Lines.{Lacks-any, newline}

abbrev all_writes : Writes
all_writes = record { removed = true; deployed = true; saved = true }

-- An old file with a comment, the form of one cap, and a line that is not read.
abbrev shaper : Shaper
shaper = record {
  conf =
      some
        (codes "# old" ++ newline ∷ codes "mbps = 10 " ++ newline ∷ codes "3=fast" ++ newline ∷ []);
  script = false;
  servers =
      record { content = some (codes "port 1194" ++ newline ∷ []); writable = true }
      ∷ record { content = none; writable = false }
      ∷ [];
}

abbrev second_key : Text
second_key = codes "2"

second_key-IsKey : IsKey second_key
unfolding trim_space has_prefix text_eq
second_key-IsKey = record {
  no_mark = Lacks-any b'=' second_key refl;
  no_newline = Lacks-any newline second_key refl;
  trimmed = refl;
  clean = refl;
  uncommented = refl;
  current = text_ne second_key (codes "mbps") refl;
}

abbrev commands : List Command
commands = set_cap second_key 20 ∷ forget_cap (codes "main") ∷ set_cap second_key 30 ∷ []

execute_commands-apply_example :
    load_for (execute_commands all_writes commands shaper).conf second_key
    ≡ apply_commands commands (load_for shaper.conf) second_key
execute_commands-apply_example =
    execute_commands-apply all_writes commands shaper (refl, refl, refl)
      ((second_key-IsKey, omega arith), (tt, ((second_key-IsKey, omega arith), tt))) second_key

set_limit-HooksFollow_example :
    HooksFollow
      (set_limit all_writes second_key (pos 20) shaper).0.conf
      (set_limit all_writes second_key (pos 20) shaper).0.servers
unfolding set_limit hexplus_v.Maps.insert hexplus_v.Text.Lines.split trim_space has_prefix
    hexplus_v.Text.Cut.cut hexplus_v.Text.Number.atoi text_eq
set_limit-HooksFollow_example =
    set_limit-HooksFollow all_writes second_key 20 shaper (λ h. h, (tt, tt)) refl

main_read : load_for shaper.conf main_key ≡ 10
unfolding load_for hexplus_v.Maps.lookup hexplus_v.Text.Lines.split trim_space has_prefix
    hexplus_v.Text.Cut.cut hexplus_v.Text.Number.atoi hexplus_v.Maps.insert text_eq
main_read = refl
