-- ===== src/Xray/Stats/Growth.antt =====
-- internal/xray/stats.go: what new traffic adds to what is due.
use hexplus_v.Base.{
  ℕ, ◌+◌, ◌≤◌, ◌≡◌, refl, ap, inl, inr, false, Option, none, some, [], ◌∷◌, arith, Bool-cases,
}
use hexplus_v.Maps.{insert, lookup, lookup-insert}
use hexplus_v.Text.{Text, text_eq, text_eq_iff}
use hexplus_v.Xray.Stats.{Prev, delta, last_of, split_stat_name}
use hexplus_v.Xray.Stats.Poll.{Counters, IsDistinct, all_due}
use hexplus_v.Xray.Stats.Share.{part_for}

lookup-insert_other :
    (n m : Text) (v : ℕ) (w : Counters)
    → text_eq n m ≡ false
    → lookup m w ≡ none
    → lookup m (insert n v w) ≡ none
lookup-insert_other n m v w other gone = rw (lookup-insert n m v w, other) gone

pub insert-IsDistinct : (n : Text) (v : ℕ) (w : Counters) → IsDistinct w → IsDistinct (insert n v w)
unfolding insert lookup
insert-IsDistinct n v [] _ = (refl, tt)
insert-IsDistinct n v ((m, u) ∷ w) (gone, rest) = elim (Bool-cases (text_eq m n)) [
  | inl same ↦ rw same (gone, rest)
  | inr other ↦ rw other (
    lookup-insert_other n m v w (ground (arith, other, text_eq_iff m n, text_eq_iff n m)) gone,
    insert-IsDistinct n v w rest,
  )
]

part_for-le :
    (scope name : Text) (o : Option (Text × Text × Text)) (a b c : ℕ)
    → a ≤ b + c
    → part_for scope name o a ≤ part_for scope name o b + part_for scope name o c
part_for-le scope name none a b c h = omega arith
part_for-le scope name (some (s, n, direction)) a b c h = ground arith

part_for_mono :
    (scope name : Text) (o : Option (Text × Text × Text)) (a c : ℕ)
    → a ≤ c
    → part_for scope name o a ≤ part_for scope name o c
part_for_mono scope name none a c h = omega arith
part_for_mono scope name (some (s, n, direction)) a c h = ground arith

delta-le : (cur last bytes : ℕ) → delta (cur + bytes) last ≤ delta cur last + bytes
unfolding delta
delta-le cur last bytes = ground arith

delta_fresh : (last bytes : ℕ) → delta (0 + bytes) last ≤ bytes
unfolding delta
delta_fresh last bytes = ground arith

-- Traffic adds to what is due at most its bytes.
all_due-bumped :
    (scope name n : Text) (x bytes : ℕ) (prev : Prev) (w : Counters)
    → x ≡ last_of (lookup n w)
    → all_due scope name prev (insert n (x + bytes) w)
      ≤ all_due scope name prev w + part_for scope name (split_stat_name n) bytes
unfolding insert lookup
all_due-bumped scope name n x bytes prev [] e = omega (
  arith,
  e,
  part_for_mono scope name (split_stat_name n) (delta (x + bytes) (last_of (lookup n prev))) bytes
      (rw e (delta_fresh (last_of (lookup n prev)) bytes)),
)
all_due-bumped scope name n x bytes prev ((m, u) ∷ w) e = elim (Bool-cases (text_eq m n)) [
  | inl same ↦
      rw (same, rw same at e)
        (omega (
          arith,
          part_for-le scope name (split_stat_name m) (delta (u + bytes) (last_of (lookup m prev)))
              (delta u (last_of (lookup m prev))) bytes
              (delta-le u (last_of (lookup m prev)) bytes),
          ap (λ k. part_for scope name (split_stat_name k) bytes) ((text_eq_iff m n).0 same),
        ))
  | inr other ↦ rw other (omega (arith, all_due-bumped scope name n x bytes prev w (rw other at e)))
]

pub all_due-traffic :
    (scope name n : Text) (bytes : ℕ) (prev : Prev) (w : Counters)
    → all_due scope name prev (insert n (last_of (lookup n w) + bytes) w)
      ≤ all_due scope name prev w + part_for scope name (split_stat_name n) bytes
all_due-traffic scope name n bytes prev w =
    all_due-bumped scope name n (last_of (lookup n w)) bytes prev w refl
