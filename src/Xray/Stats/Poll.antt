-- ===== src/Xray/Stats/Poll.antt =====
-- internal/xray/stats.go: one poll of all the counters of a running xray.
use hexplus_v.Base.{
  ℕ, ◌+◌, ◌≡◌, refl, ◌∙◌, inl, inr, false, Option, none, some, List, [], ◌∷◌, arith, Bool-cases,
  Option-cases,
}
use hexplus_v.Maps.{insert, lookup, lookup-insert}
use hexplus_v.Text.{Text, text_eq, text_eq_iff, text_eq_refl}
use hexplus_v.Xray.Stats.{
  Prev, Sample, Stat, count_split, count_stat, count_stats, count_value, delta, last_of,
  parse_stats, split_stat_name,
}
use hexplus_v.Xray.Stats.Share.{bytes_for, bytes_for-count_value, bytes_for-keep, due, part_for}

-- The counters that xray reports: a name and a value each.
abbrev pub Counters : Type 0
Counters = List (Text × ℕ)

abbrev pub reply : Counters → List Stat
reply [] = []
reply ((n, v) ∷ w) = record { name = n; value = some v } ∷ reply w

-- Every counter is reported once.
abbrev pub IsDistinct : Counters → Type 0
IsDistinct [] = Unit
IsDistinct ((n, v) ∷ w) = (lookup n w ≡ none) × IsDistinct w

-- What is due for a scope and a name over all counters.
abbrev pub all_due : Text → Text → Prev → Counters → ℕ
all_due scope name prev [] = 0
all_due scope name prev ((n, v) ∷ w) = due scope name prev n v + all_due scope name prev w

due-insert :
    (scope name : Text) (prev : Prev) (n m : Text) (u v : ℕ)
    → text_eq n m ≡ false
    → due scope name (insert n u prev) m v ≡ due scope name prev m v
due-insert scope name prev n m u v other = rw (lookup-insert n m u prev, other)

all_due-insert :
    (scope name : Text) (prev : Prev) (n : Text) (u : ℕ) (w : Counters)
    → lookup n w ≡ none
    → all_due scope name (insert n u prev) w ≡ all_due scope name prev w
unfolding lookup
all_due-insert scope name prev n u [] _ = refl
all_due-insert scope name prev n u ((m, v) ∷ w) gone = elim (Bool-cases (text_eq m n)) [
  | inl same ↦ absurd (ground (arith, rw same at gone))
  | inr other ↦ omega (
    arith,
    due-insert scope name prev n m u v (ground (arith, other, text_eq_iff n m, text_eq_iff m n)),
    all_due-insert scope name prev n u w (rw other at gone),
  )
]

-- One entry of the reply.
bytes_for-count_stat :
    (scope name n : Text) (v : ℕ) (st : Prev × List Sample)
    → bytes_for scope name (count_stat (record { name = n; value = some v }) st).1
      ≡ bytes_for scope name st.1 + due scope name st.0 n v
unfolding count_stat
bytes_for-count_stat scope name n v (prev, bs) = split (split_stat_name n)
  where
    split :
        (o : Option (Text × Text × Text))
        → bytes_for scope name (count_split n o (some v) (prev, bs)).1
          ≡ bytes_for scope name bs + part_for scope name o (delta v (last_of (lookup n prev)))
    split none = omega arith
    split (some parts) = bytes_for-count_value scope name n v parts prev bs

-- What `prev` is after an entry, for the counters that are not the entry's.
all_due-count_stat :
    (scope name n : Text) (v : ℕ) (st : Prev × List Sample) (w : Counters)
    → lookup n w ≡ none
    → all_due scope name (count_stat (record { name = n; value = some v }) st).0 w
      ≡ all_due scope name st.0 w
unfolding count_stat count_value
all_due-count_stat scope name n v (prev, bs) w gone = split (split_stat_name n)
  where
    split :
        (o : Option (Text × Text × Text))
        → all_due scope name (count_split n o (some v) (prev, bs)).0 w ≡ all_due scope name prev w
    split none = refl
    split (some (s, m, d)) = all_due-insert scope name prev n v w gone

-- A poll counts for a scope and a name what is due for it.
bytes_for-count_stats :
    (scope name : Text) (w : Counters) (st : Prev × List Sample)
    → IsDistinct w
    → bytes_for scope name (count_stats (reply w) st).1
      ≡ bytes_for scope name st.1 + all_due scope name st.0 w
unfolding count_stats
bytes_for-count_stats scope name [] st _ = omega arith
bytes_for-count_stats scope name ((n, v) ∷ w) st (gone, rest) = omega (
  arith,
  bytes_for-count_stats scope name w (count_stat (record { name = n; value = some v }) st) rest,
  bytes_for-count_stat scope name n v st,
  all_due-count_stat scope name n v st w gone,
)

pub bytes_for-parse_stats :
    (scope name : Text) (w : Counters) (prev : Prev)
    → IsDistinct w
    → bytes_for scope name (parse_stats (reply w) prev).1 ≡ all_due scope name prev w
unfolding parse_stats
bytes_for-parse_stats scope name w prev distinct =
    bytes_for-keep scope name (count_stats (reply w) (prev, [])).1
    ∙ bytes_for-count_stats scope name w (prev, []) distinct
    ∙ omega arith

part_for_zero : (scope name : Text) (o : Option (Text × Text × Text)) → part_for scope name o 0 ≡ 0
part_for_zero scope name none = refl
part_for_zero scope name (some (s, n, direction)) = ground arith

delta_self : (v : ℕ) → delta v v ≡ 0
unfolding delta
delta_self v = ground arith

due_counted : (scope name n : Text) (v : ℕ) (prev : Prev) → due scope name (insert n v prev) n v ≡ 0
due_counted scope name n v prev =
    rw (lookup-insert n n v prev, text_eq_refl n)
      (rw (delta_self v) (part_for_zero scope name (split_stat_name n)))

due-count_stat_self :
    (scope name n : Text) (v : ℕ) (st : Prev × List Sample)
    → due scope name (count_stat (record { name = n; value = some v }) st).0 n v ≡ 0
unfolding count_stat count_value
due-count_stat_self scope name n v (prev, bs) = elim (Option-cases (split_stat_name n)) [
  | inl unread ↦ rw unread refl
  | inr ((s, m, d), parts) ↦
      rw (parts, lookup-insert n n v prev, text_eq_refl n)
        (rw (delta_self v) (part_for_zero scope name (some (s, m, d))))
]

due-count_stat :
    (scope name n m : Text) (u v : ℕ) (st : Prev × List Sample)
    → text_eq n m ≡ false
    → due scope name (count_stat (record { name = n; value = some u }) st).0 m v
      ≡ due scope name st.0 m v
unfolding count_stat count_value
due-count_stat scope name n m u v (prev, bs) other = split (split_stat_name n)
  where
    split :
        (o : Option (Text × Text × Text))
        → due scope name (count_split n o (some u) (prev, bs)).0 m v ≡ due scope name prev m v
    split none = refl
    split (some (s, k, d)) = due-insert scope name prev n m u v other

due-count_stats :
    (scope name m : Text) (v : ℕ) (w : Counters) (st : Prev × List Sample)
    → lookup m w ≡ none
    → due scope name (count_stats (reply w) st).0 m v ≡ due scope name st.0 m v
unfolding count_stats lookup
due-count_stats scope name m v [] st _ = refl
due-count_stats scope name m v ((n, u) ∷ w) st gone = elim (Bool-cases (text_eq n m)) [
  | inl same ↦ absurd (ground (arith, rw same at gone))
  | inr other ↦
      due-count_stats scope name m v w (count_stat (record { name = n; value = some u }) st)
        (rw other at gone)
      ∙ due-count_stat scope name n m u v st other
]

due_none :
    (scope name : Text) (w : Counters) (st : Prev × List Sample)
    → IsDistinct w
    → all_due scope name (count_stats (reply w) st).0 w ≡ 0
unfolding count_stats
due_none scope name [] st _ = refl
due_none scope name ((n, v) ∷ w) st (gone, rest) = omega (
  arith,
  due-count_stats scope name n v w (count_stat (record { name = n; value = some v }) st) gone,
  due-count_stat_self scope name n v st,
  due_none scope name w (count_stat (record { name = n; value = some v }) st) rest,
)

-- Behind a poll nothing is due.
pub all_due-parse_stats :
    (scope name : Text) (w : Counters) (prev : Prev)
    → IsDistinct w
    → all_due scope name (parse_stats (reply w) prev).0 w ≡ 0
unfolding parse_stats
all_due-parse_stats scope name w prev distinct = due_none scope name w (prev, []) distinct
