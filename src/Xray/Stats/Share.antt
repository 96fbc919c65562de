-- ===== src/Xray/Stats/Share.antt =====
-- internal/xray/stats.go: what one poll adds for a scope and a name.
use hexplus_v.Base.{
  ℕ, ◌+◌, ◌≡◌, refl, inl, inr, ◌&&◌, ◌||◌, Option, none, some, List, [], ◌∷◌, arith, ◌==◌,
  if◌then◌else◌, Bool-cases, keep,
}
use hexplus_v.Maps.{lookup}
use hexplus_v.Text.{Text, codes, text_eq, text_eq_iff}
use hexplus_v.Xray.Stats.{
  Prev, Sample, add_direction, add_sample, count_value, delta, has_traffic, is_for, last_of,
  split_stat_name,
}

-- The bytes of the samples of a scope and a name.
abbrev pub bytes_for : Text → Text → List Sample → ℕ
bytes_for scope name [] = 0
bytes_for scope name (s ∷ ss) =
    (if is_for scope name s then s.up + s.down else 0) + bytes_for scope name ss

-- A counter of one of the two directions counts.
abbrev pub counted : Text → ℕ → ℕ
counted direction d =
    if text_eq direction (codes "uplink") || text_eq direction (codes "downlink") then d else 0

abbrev pub part_for : Text → Text → Option (Text × Text × Text) → ℕ → ℕ
part_for scope name none d = 0
part_for scope name (some (s, n, direction)) d =
    if text_eq s scope && text_eq n name then counted direction d else 0

bytes-add_direction :
    (direction : Text) (d : ℕ) (s : Sample)
    → (add_direction direction d s).up + (add_direction direction d s).down
      ≡ s.up + s.down + counted direction d
unfolding add_direction
bytes-add_direction direction d s = ground arith

is_for-add_direction :
    (scope name direction : Text) (d : ℕ) (s : Sample)
    → is_for scope name (add_direction direction d s) ≡ is_for scope name s
unfolding add_direction
is_for-add_direction scope name direction d s = ground arith

bytes_for-add_sample :
    (scope name s n direction : Text) (d : ℕ) (bs : List Sample)
    → bytes_for scope name (add_sample s n direction d bs)
      ≡ bytes_for scope name bs + part_for scope name (some (s, n, direction)) d
unfolding add_sample
bytes_for-add_sample scope name s n direction d [] =
    let fresh : Sample = record { scope = s; name = n; up = 0; down = 0 } in
    ground (
      arith,
      is_for-add_direction scope name direction d fresh,
      bytes-add_direction direction d fresh,
    )
bytes_for-add_sample scope name s n direction d (b ∷ bs) = elim (Bool-cases (is_for s n b)) [
  | inl hit ↦ rw hit (
      ground (
        arith,
        hit,
        is_for-add_direction scope name direction d b,
        bytes-add_direction direction d b,
        text_eq_iff b.scope s,
        text_eq_iff b.name n,
      ))
  | inr miss ↦ rw miss (omega (arith, bytes_for-add_sample scope name s n direction d bs))
]

counted_zero : (direction : Text) → counted direction 0 ≡ 0
counted_zero direction = ground arith

-- What is due for a counter.
abbrev pub due : Text → Text → Prev → Text → ℕ → ℕ
due scope name prev counter cur =
    part_for scope name (split_stat_name counter) (delta cur (last_of (lookup counter prev)))

pub bytes_for-count_value :
    (scope name counter : Text) (cur : ℕ) (parts : Text × Text × Text) (prev : Prev)
    (bs : List Sample)
    → bytes_for scope name (count_value counter cur parts (prev, bs)).1
      ≡ bytes_for scope name bs
        + part_for scope name (some parts) (delta cur (last_of (lookup counter prev)))
unfolding count_value
bytes_for-count_value scope name counter cur (s, n, direction) prev bs =
    elim (Bool-cases (delta cur (last_of (lookup counter prev)) == 0)) [
      | inl none_gained ↦ ground (arith, none_gained, counted_zero direction)
      | inr gained ↦ rw gained (
          bytes_for-add_sample scope name s n direction (delta cur (last_of (lookup counter prev)))
            bs)
    ]

pub bytes_for-keep :
    (scope name : Text) (bs : List Sample)
    → bytes_for scope name (keep has_traffic bs) ≡ bytes_for scope name bs
bytes_for-keep scope name [] = refl
bytes_for-keep scope name (b ∷ bs) = ground (arith, bytes_for-keep scope name bs)
