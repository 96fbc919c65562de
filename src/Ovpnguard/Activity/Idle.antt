-- ===== src/Ovpnguard/Activity/Idle.antt =====
-- internal/ovpnguard/run.go, `activity`: a marked session has been silent for `staleAfter`, over
-- passes that all read it.
use hexplus_v.Base.{
  ℕ, ◌+◌, ◌≤◌, ◌≡◌, refl, ◌⊎◌, inl, inr, true, false, Option, none, some, List, [], ◌∷◌, arith, leb,
  ◌==◌, Bool-cases, All, All-imp,
}
use mathlib.Core.Option.{some-injective}
use mathlib.Core.Path.{subst}
use hexplus_v.Maps.{lookup, insert, lookup-insert}
use hexplus_v.Ovpnguard.Activity.{SeenAt, stale_after, key, mark, mark_from, mark_one}
use hexplus_v.Ovpnguard.Decide.{Session}
use hexplus_v.Text.{Text, text_eq, text_eq_iff}

-- A pass of the loop: when it was made, and the sessions that it read.
abbrev pub GuardPass : Type 0
GuardPass = ℕ × List Session

-- The memory after some passes, the newest first.
unfoldable pub memory : List GuardPass → List (Text × SeenAt)
unfolding mark
memory [] = []
memory ((t, ss) ∷ earlier) = (mark (memory earlier) ss t).1

-- The pass read a session with the key and the counter.
pub data Reads (k : Text) (rx : ℕ) : List Session → Type 0 where
  here : {s : Session} {ss : List Session} → key s ≡ k → s.rx_bytes ≡ rx → Reads k rx (s ∷ ss)
  there : {s : Session} {ss : List Session} → Reads k rx ss → Reads k rx (s ∷ ss)

-- Every pass from the newest back to one at time `from` read the key with the same counter.
pub data Idle (k : Text) (rx from : ℕ) : List GuardPass → Type 0 where
  began :
      {t : ℕ} {ss : List Session} {earlier : List GuardPass}
      → t ≡ from
      → Reads k rx ss
      → Idle k rx from ((t, ss) ∷ earlier)
  went_on :
      {t : ℕ} {ss : List Session} {earlier : List GuardPass}
      → Reads k rx ss
      → Idle k rx from earlier
      → Idle k rx from ((t, ss) ∷ earlier)

-- What the memory says of a key is true of the passes.
abbrev Recorded : List GuardPass → List (Text × SeenAt) → Type 0
Recorded ps m = (k : Text) (at : SeenAt) → lookup k m ≡ some at → Idle k at.rx at.changed ps

-- One session of the newest pass: what is remembered of it is true.
mark_one-Idle :
    (earlier : List GuardPass) (t : ℕ) (all : List Session) (s : Session) (o : Option SeenAt)
    → ((at : SeenAt) → o ≡ some at → Idle (key s) at.rx at.changed earlier)
    → ((rx : ℕ) → s.rx_bytes ≡ rx → Reads (key s) rx all)
    → Idle (key s) (mark_one o s t).0.rx (mark_one o s t).0.changed ((t, all) ∷ earlier)
unfolding mark_one
mark_one-Idle earlier t all s none was read = began refl (read s.rx_bytes refl)
mark_one-Idle earlier t all s (some at) was read = elim (Bool-cases (at.rx == s.rx_bytes)) [
  | inl e ↦ rw e (went_on (read at.rx (ground arith)) (was at refl))
  | inr e ↦ rw e (began refl (read s.rx_bytes refl))
]

module _ (earlier : List GuardPass) (t : ℕ) (all : List Session) where
  insert-Recorded :
      (k : Text) (at : SeenAt) (next : List (Text × SeenAt))
      → Idle k at.rx at.changed ((t, all) ∷ earlier)
      → Recorded ((t, all) ∷ earlier) next
      → Recorded ((t, all) ∷ earlier) (insert k at next)
  insert-Recorded k at next new h j at' e = elim (Bool-cases (text_eq k j)) [
    | inl same ↦
        subst (λ a. Idle j a.rx a.changed ((t, all) ∷ earlier))
          (some-injective at at' (rw (lookup-insert, same) at e))
          (subst (λ i. Idle i at.rx at.changed ((t, all) ∷ earlier)) ((text_eq_iff k j).0 same) new)
    | inr other ↦ h j at' (rw (lookup-insert, other) at e)
  ]

  module _ (old : Recorded earlier (memory earlier)) where
    mark_from-Recorded :
        (ss : List Session) (next : List (Text × SeenAt))
        → ((k : Text) (rx : ℕ) → Reads k rx ss → Reads k rx all)
        → Recorded ((t, all) ∷ earlier) next
        → Recorded ((t, all) ∷ earlier) (mark_from (memory earlier) t ss next).1
    unfolding mark_from
    mark_from-Recorded [] next sub h = h
    mark_from-Recorded (s ∷ ss) next sub h =
        mark_from-Recorded ss
          (insert (key s) (mark_one (lookup (key s) (memory earlier)) s t).0 next)
          (λ k rx r. sub k rx (there r))
          (insert-Recorded (key s) (mark_one (lookup (key s) (memory earlier)) s t).0 next
            (mark_one-Idle earlier t all s (lookup (key s) (memory earlier)) (old (key s))
              (λ rx e. sub (key s) rx (here refl e)))
            h)

-- The memory is true of the passes that made it.
pub memory-Recorded : (ps : List GuardPass) → Recorded ps (memory ps)
unfolding memory lookup
memory-Recorded [] k at e = cc
memory-Recorded ((t, ss) ∷ earlier) k at e =
    mark_from-Recorded earlier t ss (memory-Recorded earlier) ss [] (λ k rx r. r) (λ k at e. cc) k
      at e

-- What a mark stands for.
abbrev pub IsDead : Session → List GuardPass → ℕ → Type 0
IsDead s ps t = (from : ℕ) × Idle (key s) s.rx_bytes from ps × (from + stale_after ≤ t)

mark_one-IsDead :
    (earlier : List GuardPass) (t : ℕ) (all : List Session) (s : Session) (o : Option SeenAt)
    → s.stale ≡ false
    → ((at : SeenAt) → o ≡ some at → Idle (key s) at.rx at.changed earlier)
    → Reads (key s) s.rx_bytes all
    → (mark_one o s t).1.stale ≡ true
    → IsDead (mark_one o s t).1 ((t, all) ∷ earlier) t
unfolding mark_one key
mark_one-IsDead earlier t all s none live was read h = cc
mark_one-IsDead earlier t all s (some at) live was read h =
    elim (Bool-cases (at.rx == s.rx_bytes)) [
      | inl same ↦ elim (Bool-cases (leb (at.changed + stale_after) t)) [
        | inl late ↦
            rw (same, late)
              (
                at.changed,
                went_on read (rw (equal at.rx s.rx_bytes same) at (was at refl)),
                ground arith,
              )
        | inr early ↦ absurd (ground arith)
      ]
      | inr other ↦ absurd (ground arith)
    ]
  where
    equal : (a b : ℕ) → (a == b) ≡ true → a ≡ b
    equal a b e = ground arith

module _ (earlier : List GuardPass) (t : ℕ) (all : List Session) where
  mark_from-IsDead :
      (ss : List Session) (next : List (Text × SeenAt))
      → ((k : Text) (rx : ℕ) → Reads k rx ss → Reads k rx all)
      → All (λ s. s.stale ≡ false) ss
      → All
          (λ s. s.stale ≡ true → IsDead s ((t, all) ∷ earlier) t)
          (mark_from (memory earlier) t ss next).0
  unfolding mark_from
  mark_from-IsDead [] next sub _ = tt
  mark_from-IsDead (s ∷ ss) next sub (live, rest) = (
    mark_one-IsDead earlier t all s (lookup (key s) (memory earlier)) live
        (memory-Recorded earlier (key s)) (sub (key s) s.rx_bytes (here refl refl)),
    mark_from-IsDead ss (insert (key s) (mark_one (lookup (key s) (memory earlier)) s t).0 next)
        (λ k rx r. sub k rx (there r)) rest,
  )

mark_reports :
    (earlier : List GuardPass) (t : ℕ) (ss : List Session)
    → All (λ s. s.stale ≡ false) ss
    → All (λ s. s.stale ≡ true → IsDead s ((t, ss) ∷ earlier) t) (mark (memory earlier) ss t).0
unfolding mark
mark_reports earlier t ss live = mark_from-IsDead earlier t ss ss [] (λ k rx r. r) live

-- After any passes, a session of the next pass, read unmarked, either comes out unmarked or was read
-- with the same counter by every pass since one at least `staleAfter` ago.
pub mark_sound :
    (earlier : List GuardPass) (t : ℕ) (ss : List Session)
    → All (λ s. s.stale ≡ false) ss
    → All (λ s. (s.stale ≡ false) ⊎ IsDead s ((t, ss) ∷ earlier) t) (mark (memory earlier) ss t).0
mark_sound earlier t ss live =
    All-imp (λ s. s.stale ≡ true → IsDead s ((t, ss) ∷ earlier) t)
      (λ s. (s.stale ≡ false) ⊎ IsDead s ((t, ss) ∷ earlier) t) (mark (memory earlier) ss t).0
      (λ s dead. elim (Bool-cases s.stale) [ inl e ↦ inr (dead e) | inr e ↦ inl e ])
      (mark_reports earlier t ss live)
