-- ===== src/Ovpnguard/Decide/Grouping.antt =====
-- internal/ovpnguard/decide.go: the groups of the sessions, and one user's entry among them.
use hexplus_v.Base.{
  ℕ, ◌≤◌, ◌≡◌, refl, sym, ◌≢◌, inl, inr, true, false, List, [], ◌∷◌, ◌++◌, append_assoc, append-nil,
  arith, ◌==◌, if◌then◌else◌, Bool-cases, keep, tally, All,
}
use hexplus_v.Ovpnguard.Decide.{
  Session, Kill, append_to, group, sessions_of, names_of, kill_for, is_empty,
}
use hexplus_v.Text.{Text, text_eq, text_eq_iff}

-- The sessions of one user, and the kills of one user's sessions, in their order.
abbrev pub of_user : Text → List Session → List Session
of_user n = keep (λ s. text_eq s.name n)

abbrev pub kills_of : Text → List Kill → List Kill
kills_of n = keep (λ k. text_eq k.session.name n)

abbrev pub named : Text → List Text → ℕ
named n = tally (λ m. text_eq m n)

-- Every session stands under its own name.
abbrev pub IsFiled : List (Text × List Session) → Type 0
IsFiled = All (λ e. All (λ s. s.name ≡ e.0) e.1)

module _ (n k : Text) (s : Session) where
  sessions_of-append_to :
      (m : List (Text × List Session))
      → sessions_of n (append_to k s m)
        ≡ (if text_eq k n then sessions_of n m ++ s ∷ [] else sessions_of n m)
  unfolding sessions_of append_to
  sessions_of-append_to [] = refl
  sessions_of-append_to ((j, ss) ∷ m) =
      ground (arith, text_eq_iff j k, text_eq_iff j n, text_eq_iff k n, sessions_of-append_to m)

  named-append_to :
      (m : List (Text × List Session))
      → named n (names_of (append_to k s m)) ≡ (
          if text_eq k n
          then if named n (names_of m) == 0 then 1 else named n (names_of m)
          else named n (names_of m))
  unfolding append_to
  named-append_to [] = ground arith
  named-append_to ((j, ss) ∷ m) =
      ground (arith, text_eq_iff j k, text_eq_iff j n, text_eq_iff k n, named-append_to m)

append_to-IsFiled :
    (s : Session) (m : List (Text × List Session)) → IsFiled m → IsFiled (append_to s.name s m)
unfolding append_to
append_to-IsFiled s [] _ = ((refl, tt), tt)
append_to-IsFiled s ((j, ss) ∷ m) (h, hs) = elim (Bool-cases (text_eq j s.name)) [
  | inl e ↦ rw e (at_end ss h ((text_eq_iff j s.name).0 e), hs)
  | inr e ↦ rw e (h, append_to-IsFiled s m hs)
]
  where
    at_end :
        (ts : List Session)
        → All (λ t. t.name ≡ j) ts
        → j ≡ s.name
        → All (λ t. t.name ≡ j) (ts ++ s ∷ [])
    at_end [] _ e = (sym e, tt)
    at_end (t ∷ ts) (p, ps) e = (p, at_end ts ps e)

pub group-IsFiled :
    (ss : List Session) (m : List (Text × List Session)) → IsFiled m → IsFiled (group ss m)
unfolding group
group-IsFiled [] m h = h
group-IsFiled (s ∷ ss) m h = elim (Bool-cases (is_empty s.name)) [
  | inl e ↦ rw e (group-IsFiled ss m h)
  | inr e ↦ rw e (group-IsFiled ss (append_to s.name s m) (append_to-IsFiled s m h))
]

pub sessions_of-IsFiled :
    (n : Text) (m : List (Text × List Session))
    → IsFiled m
    → All (λ s. s.name ≡ n) (sessions_of n m)
unfolding sessions_of
sessions_of-IsFiled n [] _ = tt
sessions_of-IsFiled n ((j, ss) ∷ m) (h, hs) = elim (Bool-cases (text_eq j n)) [
  | inl e ↦ rw e (rw (← (text_eq_iff j n).0 e) h)
  | inr e ↦ rw e (sessions_of-IsFiled n m hs)
]

unnamed-text_eq : (n t : Text) → n ≢ [] → is_empty t ≡ true → text_eq t n ≡ false
unfolding text_eq
unnamed-text_eq [] t h e = absurd (h refl)
unnamed-text_eq (c ∷ n) [] h e = refl
unnamed-text_eq (c ∷ n) (d ∷ t) h e = cc

pub sessions_of-group :
    (n : Text) (ss : List Session) (m : List (Text × List Session))
    → n ≢ []
    → sessions_of n (group ss m) ≡ sessions_of n m ++ of_user n ss
unfolding group
sessions_of-group n [] m h = sym (append-nil (sessions_of n m))
sessions_of-group n (s ∷ ss) m h = elim (Bool-cases (is_empty s.name)) [
  | inl e ↦ rw (e, unnamed-text_eq n s.name h e) (sessions_of-group n ss m h)
  | inr e ↦ rw e (
      ground (
        arith,
        sessions_of-group n ss (append_to s.name s m) h,
        sessions_of-append_to n s.name s m,
        append_assoc (sessions_of n m) (s ∷ []) (of_user n ss),
      ))
]

pub named-group :
    (n : Text) (ss : List Session) (m : List (Text × List Session))
    → named n (names_of m) ≤ 1
    → named n (names_of (group ss m)) ≤ 1
unfolding group
named-group n [] m h = h
named-group n (s ∷ ss) m h = elim (Bool-cases (is_empty s.name)) [
  | inl e ↦ rw e (named-group n ss m h)
  | inr e ↦
      rw e (named-group n ss (append_to s.name s m) (ground (arith, named-append_to n s.name s m)))
]

-- An unnamed session makes no entry.
pub unnamed-group :
    (ss : List Session) (m : List (Text × List Session))
    → named [] (names_of m) ≡ 0
    → named [] (names_of (group ss m)) ≡ 0
unfolding group
unnamed-group [] m h = h
unnamed-group (s ∷ ss) m h = elim (Bool-cases (is_empty s.name)) [
  | inl e ↦ rw e (unnamed-group ss m h)
  | inr e ↦ rw e (
      unnamed-group ss (append_to s.name s m)
        (ground (arith, named-append_to [] s.name s m, nonempty s.name e)))
]
  where
    nonempty : (t : Text) → is_empty t ≡ false → text_eq t [] ≡ false
    nonempty [] e = cc
    nonempty (c ∷ t) e = unfold text_eq in refl

pub sessions_of_unnamed :
    (n : Text) (m : List (Text × List Session)) → named n (names_of m) ≡ 0 → sessions_of n m ≡ []
unfolding sessions_of
sessions_of_unnamed n [] h = refl
sessions_of_unnamed n ((j, ss) ∷ m) h = ground (arith, sessions_of_unnamed n m)

pub kills_of-kill_for_self :
    (n r : Text) (ss : List Session)
    → All (λ s. s.name ≡ n) ss
    → kills_of n (kill_for r ss) ≡ kill_for r ss
kills_of-kill_for_self n r [] _ = refl
kills_of-kill_for_self n r (s ∷ ss) (h, hs) =
    ground (arith, text_eq_iff s.name n, kills_of-kill_for_self n r ss hs)

pub kills_of-kill_for_ne :
    (n k r : Text) (ss : List Session)
    → text_eq k n ≡ false
    → All (λ s. s.name ≡ k) ss
    → kills_of n (kill_for r ss) ≡ []
kills_of-kill_for_ne n k r [] _ _ = refl
kills_of-kill_for_ne n k r (s ∷ ss) e (h, hs) =
    ground (arith, text_eq_iff s.name n, text_eq_iff k n, kills_of-kill_for_ne n k r ss e hs)
