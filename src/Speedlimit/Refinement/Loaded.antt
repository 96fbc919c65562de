-- ===== src/Speedlimit/Refinement/Loaded.antt =====
-- internal/speedlimit/speedlimit.go: every cap that `LoadAll` reads can be written back.
use hexplus_v.Base.{
  ℕ, zero, suc, ◌^◌, ◌<◌, ◌≡◌, refl, ◌≢◌, inl, inr, Bool, false, Option, none, some, List, [], ◌∷◌,
  ◌++◌, arith, ◌==◌, Bool-cases, Option-cases, All, All-imp,
}
use hexplus_v.Base.Int.{ℤ, pos, negsuc}
use hexplus_v.Maps
use hexplus_v.Speedlimit.{
  Limits, cap_of, change, key_of, keys_of, load_all, load_line, load_lines, load_value, main_key,
}
use hexplus_v.Speedlimit.Caps.{IsCap, IsKey, IsLimits}
use hexplus_v.Text.{Text, codes, has_prefix, is_space, text_eq, text_eq_refl, text_ne, trim_space}
use hexplus_v.Text.Cut.{cut, cut-parts}
use hexplus_v.Text.Lines.{Lacks, Lacks-any, newline, split, split-Lacks}
use hexplus_v.Text.Number.{atoi, atoi_fits}
use hexplus_v.Text.Trim.{
  All-parts, StartsClean, trim_space-All, trim_space-StartsClean, trim_space_clean, trim_space_idem,
  trim_right-StartsClean,
}

-- Every entry can be written.
abbrev pub IsEntries : Limits → Type 0
IsEntries = All (λ (e : Text × ℕ). IsKey e.0 × IsCap e.1)

after-IsCap :
    (k : Text) (v : ℕ) (m : Limits)
    → IsCap v
    → (j : Text) → IsCap (cap_of j m)
    → IsCap (cap_of j ((k, v) ∷ m))
unfolding cap_of Maps.lookup
after-IsCap k v m fits j h = elim (Bool-cases (text_eq k j)) [
  | inl e ↦ rw (cap_of, e) fits
  | inr e ↦ rw (cap_of, e) h
]

pub IsEntries-IsLimits : (m : Limits) → IsEntries m → IsLimits m
unfolding cap_of Maps.lookup
IsEntries-IsLimits [] _ = (tt, tt)
IsEntries-IsLimits ((k, v) ∷ m) ((key, fits), rest) =
    let (keys, caps) = IsEntries-IsLimits m rest in
    (
      (key, keys),
      (
        (rw (cap_of, text_eq_refl k) fits),
        All-imp (λ j. IsCap (cap_of j m)) (λ j. IsCap (cap_of j ((k, v) ∷ m))) (keys_of m)
            (after-IsCap k v m fits) caps,
      ),
    )

insert-IsEntries :
    (k : Text) (v : ℕ) (m : Limits)
    → IsKey k
    → IsCap v
    → IsEntries m
    → IsEntries (Maps.insert k v m)
unfolding Maps.insert
insert-IsEntries k v [] key fits _ = ((key, fits), tt)
insert-IsEntries k v ((j, u) ∷ m) key fits ((key', fits'), rest) = elim (Bool-cases (text_eq j k)) [
  | inl e ↦ rw e ((key', fits), rest)
  | inr e ↦ rw e ((key', fits'), insert-IsEntries k v m key fits rest)
]

pub remove-IsEntries : (k : Text) (m : Limits) → IsEntries m → IsEntries (Maps.remove k m)
unfolding Maps.remove
remove-IsEntries k [] _ = tt
remove-IsEntries k ((j, u) ∷ m) (here, rest) = elim (Bool-cases (text_eq j k)) [
  | inl e ↦ rw e (remove-IsEntries k m rest)
  | inr e ↦ rw e (here, remove-IsEntries k m rest)
]

pub change-IsEntries :
    (k : Text) (n : ℕ) (m : Limits) → IsKey k → n < 2 ^ 63 → IsEntries m → IsEntries (change k n m)
unfolding change
change-IsEntries k zero m key fits h = remove-IsEntries k m h
change-IsEntries k (suc n) m key fits h = insert-IsEntries k (suc n) m key ((omega arith), fits) h

main_key-IsKey : IsKey main_key
unfolding trim_space has_prefix text_eq
main_key-IsKey = record {
  no_mark = Lacks-any b'=' main_key refl;
  no_newline = Lacks-any newline main_key refl;
  trimmed = refl;
  clean = refl;
  uncommented = refl;
  current = text_ne main_key (codes "mbps") refl;
}

-- A trimmed text of one line that does not begin a comment.
pub record IsPlain (k : Text) : Type 0 where
  pub plain_mark : Lacks b'=' k
  pub plain_newline : Lacks newline k
  pub plain_trimmed : trim_space k ≡ k
  pub plain_clean : StartsClean is_space k
  pub plain_uncommented : has_prefix (codes "#") k ≡ false

key_of-IsKey : (k : Text) → IsPlain k → IsKey (key_of k)
unfolding key_of
key_of-IsKey k p = elim (Bool-cases (text_eq k (codes "mbps"))) [
  | inl e ↦ rw e main_key-IsKey
  | inr e ↦ rw e (record {
    no_mark = p.plain_mark;
    no_newline = p.plain_newline;
    trimmed = p.plain_trimmed;
    clean = p.plain_clean;
    uncommented = p.plain_uncommented;
    current = text_ne k (codes "mbps") e;
  })
]

load_value-IsEntries :
    (k : Text) (val : Option ℤ) (m : Limits)
    → IsPlain k
    → ((n : ℕ) → val ≡ some (pos n) → n < 2 ^ 63)
    → IsEntries m
    → IsEntries (load_value k val m)
unfolding load_value
load_value-IsEntries k none m p fits h = h
load_value-IsEntries k (some (negsuc n)) m p fits h = h
load_value-IsEntries k (some (pos zero)) m p fits h = h
load_value-IsEntries k (some (pos (suc n))) m p fits h =
    insert-IsEntries (key_of k) (suc n) m (key_of-IsKey k p) ((omega arith), fits (suc n) refl) h

abbrev is_hash : ℕ → Bool
is_hash c = b'#' == c

uncommented-StartsClean : (l : Text) → has_prefix (codes "#") l ≡ false → StartsClean is_hash l
unfolding has_prefix
uncommented-StartsClean [] h = tt
uncommented-StartsClean (c ∷ l) h = ground arith

StartsClean-uncommented : (l : Text) → StartsClean is_hash l → has_prefix (codes "#") l ≡ false
unfolding has_prefix
StartsClean-uncommented [] h = refl
StartsClean-uncommented (c ∷ l) h = ground arith

StartsClean-part : (p : ℕ → Bool) (s t : Text) → StartsClean p (s ++ t) → StartsClean p s
StartsClean-part p [] t h = tt
StartsClean-part p (c ∷ s) t h = h

trim_space-IsPlain :
    (key val : Text)
    → Lacks b'=' key
    → Lacks newline (key ++ b'=' ∷ val)
    → StartsClean is_space (key ++ b'=' ∷ val)
    → has_prefix (codes "#") (key ++ b'=' ∷ val) ≡ false
    → IsPlain (trim_space key)
trim_space-IsPlain key val lacks line clean uncommented = record {
  plain_mark = trim_space-All (λ c. c ≢ b'=') key lacks;
  plain_newline =
      trim_space-All (λ c. c ≢ newline) key
        ((All-parts (λ c. c ≢ newline) key (b'=' ∷ val) line).0);
  plain_trimmed = trim_space_idem key;
  plain_clean = trim_space-StartsClean key;
  plain_uncommented = StartsClean-uncommented (trim_space key) begins;
}
  where
    begins : StartsClean is_hash (trim_space key)
    begins = rw (trim_space_clean key (StartsClean-part is_space key (b'=' ∷ val) clean)) (
        trim_right-StartsClean is_space is_hash key (
          StartsClean-part is_hash key (b'=' ∷ val)
            (uncommented-StartsClean (key ++ b'=' ∷ val) uncommented)))

load_cut-IsEntries :
    (l key val : Text) (m : Limits)
    → Lacks newline l
    → StartsClean is_space l
    → has_prefix (codes "#") l ≡ false
    → cut b'=' l ≡ some (key, val)
    → IsEntries m
    → IsEntries (load_value (trim_space key) (atoi (trim_space val)) m)
load_cut-IsEntries l key val m lacks clean uncommented found h =
    let (parts, mark) = cut-parts b'=' l key val found in
    load_value-IsEntries (trim_space key) (atoi (trim_space val)) m
      (trim_space-IsPlain key val mark (rw (← parts) lacks) (rw (← parts) clean)
        (rw (← parts) uncommented))
      (λ n. atoi_fits (trim_space val) n) h

load_line-IsEntries :
    (l : Text) (m : Limits)
    → Lacks newline l
    → StartsClean is_space l
    → IsEntries m
    → IsEntries (load_line l m)
unfolding load_line
load_line-IsEntries [] m lacks clean h = h
load_line-IsEntries (c ∷ l) m lacks clean h = elim (Bool-cases (has_prefix (codes "#") (c ∷ l))) [
  | inl e ↦ rw e h
  | inr e ↦ elim (Option-cases (cut b'=' (c ∷ l))) [
    | inl gone ↦ rw (e, gone) h
    | inr ((key, val), found) ↦
        rw (e, found) (load_cut-IsEntries (c ∷ l) key val m lacks clean e found h)
  ]
]

load_lines-IsEntries :
    (ls : List Text) (m : Limits)
    → All (Lacks newline) ls
    → IsEntries m
    → IsEntries (load_lines ls m)
unfolding load_lines
load_lines-IsEntries [] m _ h = h
load_lines-IsEntries (l ∷ ls) m (lacks, rest) h =
    load_lines-IsEntries ls (load_line (trim_space l) m) rest (
      load_line-IsEntries (trim_space l) m (trim_space-All (λ c. c ≢ newline) l lacks)
        (trim_space-StartsClean l) h)

-- Whatever the file holds, the caps that are read can be written back.
pub load_all-IsEntries : (conf : Option Text) → IsEntries (load_all conf)
unfolding load_all
load_all-IsEntries none = tt
load_all-IsEntries (some content) =
    load_lines-IsEntries (split newline content) [] (split-Lacks newline content) tt
