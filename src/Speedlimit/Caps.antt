-- ===== src/Speedlimit/Caps.antt =====
-- internal/speedlimit/speedlimit.go: the file of the caps, read back.
use hexplus_v.Base.{
  ℕ, zero, suc, ◌^◌, ◌<◌, ◌≡◌, refl, ap, ◌∙◌, ◌≢◌, false, some, List, [], ◌∷◌, ◌++◌, arith,
  if◌then◌else◌, All, All-append, All-imp,
}
use hexplus_v.Maps
use hexplus_v.Base.Int.{pos}
use hexplus_v.Base.Order.{any-sort, sort-All, sort}
use hexplus_v.Speedlimit.{
  Limits, cap_of, conf_entries, conf_text, first_comment, key_of, keys_of, load_all, load_line,
  load_lines, load_value, second_comment,
}
use hexplus_v.Text.{
  Text, codes, has_prefix, is_space, text_eq, text_eq_iff, text_lt, text_mem, trim_right,
  trim_right_clean, trim_space,
}
use hexplus_v.Text.Cut.{cut, cut-append}
use hexplus_v.Text.Lines.{
  Lacks-any, Lacks, newline, split, split-append, split-Lacks_sep, split-nil,
}
use hexplus_v.Text.Number.{atoi-format, IsDigit, atoi, format, format-IsDigit, format-ne-nil}
use hexplus_v.Text.Words.{digit-not_space}
use hexplus_v.Text.Trim.{StartsClean, trim_space_clean, trim_right_ends}

-- A key that the file can hold.
pub record IsKey (k : Text) : Type 0 where
  pub no_mark : Lacks b'=' k
  pub no_newline : Lacks newline k
  pub trimmed : trim_space k ≡ k
  pub clean : StartsClean is_space k
  pub uncommented : has_prefix (codes "#") k ≡ false
  pub current : k ≢ codes "mbps"

-- A cap that `strconv.Atoi` reads.
abbrev pub IsCap : ℕ → Type 0
IsCap v = (0 < v) × (v < 2 ^ 63)

pub trim-format : (n : ℕ) → trim_right is_space (format n) ≡ format n
trim-format n =
    trim_right_clean is_space (format n)
      (All-imp IsDigit (λ c. is_space c ≡ false) (format n) digit-not_space (format-IsDigit n))

abbrev entry : Text → ℕ → Text
entry k v = k ++ b'=' ∷ format v

entry-StartsClean : (k : Text) (v : ℕ) → StartsClean is_space k → StartsClean is_space (entry k v)
unfolding is_space
entry-StartsClean [] v h = refl
entry-StartsClean (c ∷ k) v h = h

pub digits_clean : (s : Text) → All IsDigit s → StartsClean is_space s
digits_clean [] h = tt
digits_clean (c ∷ s) (h, _) = digit-not_space c h

entry-trimmed : (k : Text) (v : ℕ) → StartsClean is_space k → trim_space (entry k v) ≡ entry k v
entry-trimmed k v h =
    trim_space_clean (entry k v) (entry-StartsClean k v h)
    ∙ trim_right_ends is_space k (b'=' ∷ format v) (λ e. cc)
        (trim_right_ends is_space (b'=' ∷ []) (format v) (format-ne-nil v) (trim-format v))

entry-uncommented :
    (k : Text) (v : ℕ)
    → has_prefix (codes "#") k ≡ false
    → has_prefix (codes "#") (entry k v) ≡ false
unfolding has_prefix
entry-uncommented [] v h = refl
entry-uncommented (c ∷ k) v h = h

pub key_of_current : (k : Text) → k ≢ codes "mbps" → key_of k ≡ k
unfolding key_of
key_of_current k n = ground (arith, text_eq_iff k (codes "mbps"))

load_value_cap :
    (k : Text) (v : ℕ) (m : Limits)
    → k ≢ codes "mbps"
    → 0 < v
    → load_value k (some (pos v)) m ≡ Maps.insert k v m
unfolding load_value
load_value_cap k zero m n h = absurd (omega arith)
load_value_cap k (suc v) m n h = ap (λ j. Maps.insert j (suc v) m) (key_of_current k n)

load_line-cut :
    (l key val : Text) (m : Limits)
    → has_prefix (codes "#") l ≡ false
    → cut b'=' l ≡ some (key, val)
    → load_line l m ≡ load_value (trim_space key) (atoi (trim_space val)) m
unfolding load_line
load_line-cut [] key val m h e = absurd (unfold cut in cc)
load_line-cut (c ∷ l) key val m h e = rw (h, e)

-- The line of a key is read back as its cap.
pub load_line-entry :
    (k : Text) (v : ℕ) (m : Limits)
    → IsKey k
    → IsCap v
    → load_line (trim_space (entry k v)) m ≡ Maps.insert k v m
load_line-entry k v m key (positive, fits) = rw (entry-trimmed k v key.clean) (
    load_line-cut (entry k v) k (format v) m (entry-uncommented k v key.uncommented)
      (cut-append b'=' k (format v) key.no_mark)
    ∙ read)
  where
    number : atoi (trim_space (format v)) ≡ some (pos v)
    number =
        rw (trim_space_clean (format v) (digits_clean (format v) (format-IsDigit v)), trim-format v)
          (atoi-format v fits)

    read : load_value (trim_space k) (atoi (trim_space (format v))) m ≡ Maps.insert k v m
    read = rw (key.trimmed, number) (load_value_cap k v m key.current positive)

-- The lines that `writeConf` prints for the keys.
abbrev entries : Limits → List Text → List Text
entries m [] = [] ∷ []
entries m (k ∷ ks) = entry k (cap_of k m) ∷ entries m ks

digit-not_newline : (c : ℕ) → IsDigit c → c ≢ newline
digit-not_newline c h = ground arith

entry-Lacks : (k : Text) (v : ℕ) → IsKey k → Lacks newline (entry k v)
entry-Lacks k v key =
    All-append (λ c. c ≢ newline) k (b'=' ∷ format v) key.no_newline
      (
        (omega arith),
        All-imp IsDigit (λ c. c ≢ newline) (format v) digit-not_newline (format-IsDigit v),
      )

split_line : (s t : Text) → Lacks newline s → split newline (s ++ newline ∷ t) ≡ s ∷ split newline t
split_line s t h = rw (split-append newline s t, split-Lacks_sep newline s h)

split-conf_entries :
    (m : Limits) (ks : List Text) → All IsKey ks → split newline (conf_entries m ks) ≡ entries m ks
unfolding conf_entries
split-conf_entries m [] _ = split-nil newline
split-conf_entries m (k ∷ ks) (key, rest) =
    split_line (entry k (cap_of k m)) (conf_entries m ks) (entry-Lacks k (cap_of k m) key)
    ∙ ap (◌∷◌ (entry k (cap_of k m))) (split-conf_entries m ks rest)

-- The file is split into its comments and entries.
split-conf_text :
    (m : Limits)
    → All IsKey (keys_of m)
    → split newline (conf_text m)
      ≡ first_comment ∷ second_comment ∷ entries m (sort text_lt (keys_of m))
unfolding conf_text
split-conf_text m keys =
    split_line first_comment (second_comment ++ newline ∷ entries_of)
      (Lacks-any newline first_comment refl)
    ∙ ap (◌∷◌ first_comment)
        (split_line second_comment entries_of (Lacks-any newline second_comment refl))
    ∙ ap (λ ls. first_comment ∷ second_comment ∷ ls)
        (split-conf_entries m sorted (sort-All text_lt IsKey (keys_of m) keys))
  where
    sorted : List Text
    sorted = sort text_lt (keys_of m)

    entries_of : Text
    entries_of = conf_entries m sorted

-- Every key is there with a cap that is read.
abbrev pub IsLimits : Limits → Type 0
IsLimits m = All IsKey (keys_of m) × All (λ k. IsCap (cap_of k m)) (keys_of m)

pub cap_of-insert :
    (k j : Text) (v : ℕ) (m : Limits)
    → cap_of j (Maps.insert k v m) ≡ (if text_eq k j then v else cap_of j m)
unfolding cap_of
cap_of-insert k j v m = rw (cap_of, Maps.lookup-insert k j v m) (ground arith)

pub cap_of-remove :
    (k j : Text) (m : Limits) → cap_of j (Maps.remove k m) ≡ (if text_eq k j then 0 else cap_of j m)
unfolding cap_of
cap_of-remove k j m = rw (cap_of, Maps.lookup-remove k j m) (ground arith)

load_lines-entries :
    (m acc : Limits) (ks : List Text) (j : Text)
    → All IsKey ks
    → All (λ k. IsCap (cap_of k m)) ks
    → cap_of j (load_lines (entries m ks) acc)
      ≡ (if text_mem j ks then cap_of j m else cap_of j acc)
unfolding load_lines text_mem
load_lines-entries m acc [] j _ _ = unfold load_line trim_space in refl
load_lines-entries m acc (k ∷ ks) j (key, keys) (read, caps) =
    rw (load_lines, load_line-entry k (cap_of k m) acc key read)
      (ground (
        arith,
        load_lines-entries m (Maps.insert k (cap_of k m) acc) ks j keys caps,
        cap_of-insert k j (cap_of k m) acc,
        text_eq_iff j k,
        text_eq_iff k j,
      ))

no_key : (m : Limits) (j : Text) → text_mem j (keys_of m) ≡ false → cap_of j m ≡ 0
unfolding cap_of text_mem Maps.lookup
no_key [] j h = refl
no_key ((k, v) ∷ m) j h = ground (arith, no_key m j, text_eq_iff j k, text_eq_iff k j)

comments_skipped :
    (ls : List Text) → load_lines (first_comment ∷ second_comment ∷ ls) [] ≡ load_lines ls []
unfolding load_lines load_line trim_space has_prefix
comments_skipped ls = refl

-- The file that `writeConf` writes is read back as the same caps.
pub load_all-conf_text :
    (m : Limits) (j : Text) → IsLimits m → cap_of j (load_all (some (conf_text m))) ≡ cap_of j m
unfolding load_all text_mem
load_all-conf_text m j (keys, caps) =
    ap (λ ls. cap_of j (load_lines ls [])) (split-conf_text m keys)
    ∙ ap (cap_of j) (comments_skipped (entries m (sort text_lt (keys_of m))))
    ∙ load_lines-entries m [] (sort text_lt (keys_of m)) j (sort-All text_lt IsKey (keys_of m) keys)
        (sort-All text_lt (λ k. IsCap (cap_of k m)) (keys_of m) caps)
    ∙ ground (arith, any-sort text_lt (text_eq j) (keys_of m), no_key m j, no_cap)
  where
    no_cap : cap_of j [] ≡ 0
    no_cap = unfold cap_of Maps.lookup in refl
