-- ===== src/Speedlimit/Refinement.antt =====
-- internal/speedlimit/speedlimit.go: the file of the caps implements a table from keys to caps.
pub mod Loaded
use hexplus_v.Base.{
  ℕ, zero, suc, ◌^◌, ◌<◌, ◌≡◌, refl, ap, ◌∙◌, inl, inr, Bool, true, List, [], ◌∷◌, arith, ◌==◌,
  if◌then◌else◌, Bool-cases, All,
}
use hexplus_v.Base.Int.{ℤ, pos, negsuc}
use hexplus_v.Maps
use mathlib.Core.Path.{fun_ext}
use hexplus_v.Speedlimit.{
  Limits, Shaper, ServerConf, Writes, cap_of, change, conf_text, disable_all, forget,
  inject_server_conf, injected, keep_limits, load_all, load_for, set_limit, strip_server_conf,
  stripped,
}
use hexplus_v.Speedlimit.Caps.{
  IsCap, IsKey, IsLimits, cap_of-insert, cap_of-remove, load_all-conf_text,
}
use hexplus_v.Speedlimit.Refinement.Loaded.{
  IsEntries, remove-IsEntries, change-IsEntries, IsEntries-IsLimits, load_all-IsEntries,
}
use hexplus_v.Text.{Text, text_eq, text_eq_iff}

-- The abstract table: the cap of each key, 0 where there is none.
abbrev pub Table : Type 0
Table = Text → ℕ

abbrev pub update : Text → ℕ → Table → Table
update key n t = λ j. if text_eq key j then n else t j

pub data Command : Type 0 where
  set_cap : Text → ℕ → Command
  forget_cap : Text → Command
  clear_caps : Command

-- What a command does to the table.
unfoldable pub apply : Command → Table → Table
apply (set_cap key n) t = update key n t
apply (forget_cap key) t = update key 0 t
apply clear_caps t = λ j. 0

-- What it does on the disk.
unfoldable pub execute : Writes → Command → Shaper → Shaper
unfolding set_limit forget disable_all
execute w (set_cap key n) s = (set_limit w key (pos n) s).0
execute w (forget_cap key) s = (forget w key s).0
execute w clear_caps s = (disable_all w s).0

unfoldable pub apply_commands : List Command → Table → Table
unfolding apply
apply_commands [] t = t
apply_commands (c ∷ cs) t = apply_commands cs (apply c t)

unfoldable pub execute_commands : Writes → List Command → Shaper → Shaper
unfolding execute
execute_commands w [] s = s
execute_commands w (c ∷ cs) s = execute_commands w cs (execute w c s)

-- Every cap that is set fits an `int`, under a key that the file can hold.
abbrev pub IsAllowed : Command → Type 0
IsAllowed (set_cap key n) = IsKey key × (n < 2 ^ 63)
IsAllowed _ = Unit

-- The operations on the file of the caps and on the script succeed.
abbrev pub Succeed : Writes → Type 0
Succeed w = (w.removed ≡ true) × (w.deployed ≡ true) × (w.saved ≡ true)

stripped_caps :
    (s : Shaper) (r : List ServerConf × Bool) (j : Text) → load_for (stripped s r).0.conf j ≡ 0
unfolding load_for Maps.lookup
stripped_caps s r j = refl

disable_all_clears :
    (w : Writes) (s : Shaper) (j : Text)
    → w.removed ≡ true
    → load_for (disable_all w s).0.conf j ≡ 0
unfolding disable_all
disable_all_clears w s j h = rw h (stripped_caps s (strip_server_conf s.servers) j)

-- What `SetLimit` has written is what is read.
keep_limits-cap :
    (w : Writes) (m : Limits) (s : Shaper) (j : Text)
    → Succeed w
    → IsEntries m
    → load_for (keep_limits w m s).0.conf j ≡ cap_of j m
unfolding keep_limits
keep_limits-cap w [] s j (removed, _, _) h =
    disable_all_clears w s j removed ∙ (unfold cap_of Maps.lookup in refl)
keep_limits-cap w (e ∷ m) s j (removed, deployed, saved) h =
    rw (deployed, saved)
      (unfold load_for in load_all-conf_text (e ∷ m) j (IsEntries-IsLimits (e ∷ m) h))

cap_of-change :
    (k j : Text) (n : ℕ) (m : Limits)
    → cap_of j (change k n m) ≡ (if text_eq k j then n else cap_of j m)
unfolding change
cap_of-change k j zero m = cap_of-remove k j m
cap_of-change k j (suc n) m = cap_of-insert k j (suc n) m

pub set_limit-update :
    (w : Writes) (k : Text) (n : ℕ) (s : Shaper) (j : Text)
    → Succeed w
    → IsEntries (change k n (load_all s.conf))
    → load_for (set_limit w k (pos n) s).0.conf j ≡ update k n (load_for s.conf) j
unfolding set_limit load_for
set_limit-update w k n s j done h =
    keep_limits-cap w (change k n (load_all s.conf)) s j done h
    ∙ cap_of-change k j n (load_all s.conf)

forget-update :
    (w : Writes) (k : Text) (s : Shaper) (j : Text)
    → Succeed w
    → load_for (forget w k s).0.conf j ≡ update k 0 (load_for s.conf) j
unfolding forget
forget-update w k s j done = elim (Bool-cases (load_for s.conf k == 0)) [
  | inl e ↦ rw e (ground (arith, text_eq_iff k j))
  | inr e ↦ rw e (
      set_limit-update w k 0 s j done
        (unfold change in remove-IsEntries k (load_all s.conf) (load_all-IsEntries s.conf)))
]

execute-apply :
    (w : Writes) (c : Command) (s : Shaper)
    → Succeed w
    → IsAllowed c
    → load_for (execute w c s).conf ≡ apply c (load_for s.conf)
unfolding execute apply
execute-apply w (set_cap k n) s done (key, fits) = fun_ext (λ j.
    set_limit-update w k n s j done
      (change-IsEntries k n (load_all s.conf) key fits (load_all-IsEntries s.conf)))
execute-apply w (forget_cap k) s done _ = fun_ext (λ j. forget-update w k s j done)
execute-apply w clear_caps s done _ = fun_ext (λ j. disable_all_clears w s j done.0)

-- The file implements the table: after any commands whose writes succeed, each cap that is read
-- from the file is the one that the commands give to the table of the caps read before. Every cap
-- that is set fits an `int` and has a key that a line can hold.
pub execute_commands-apply :
    (w : Writes) (cs : List Command) (s : Shaper)
    → Succeed w
    → All IsAllowed cs
    → (j : Text) → load_for (execute_commands w cs s).conf j ≡ apply_commands cs (load_for s.conf) j
unfolding execute_commands apply_commands
execute_commands-apply w [] s done _ j = refl
execute_commands-apply w (c ∷ cs) s done (allowed, rest) j =
    execute_commands-apply w cs (execute w c s) done rest j
    ∙ ap (λ t. apply_commands cs t j) (execute-apply w c s done allowed)
