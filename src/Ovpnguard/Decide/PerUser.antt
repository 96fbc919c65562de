-- ===== src/Ovpnguard/Decide/PerUser.antt =====
-- Grouping, sorting and appending serve each user on that user's own sessions.
use hexplus_v.Base.{
  ℕ, zero, suc, ◌≤◌, ◌≡◌, refl, sym, ◌∙◌, ◌≢◌, ◌⊎◌, inl, inr, false, ◌||◌, List, [], ◌∷◌,
  append-nil, arith, leb, ◌==◌, Bool-cases, length, drop, keep-append, All,
}
use hexplus_v.Base.Int.{ℤ, pos, negsuc}
use hexplus_v.Base.Order.{sort, sort-All, tally-sort}
use hexplus_v.Ovpnguard.Decide.{
  Session, Policy, before, group, sessions_of, judge, judge_all, names_of, decide, kill_for,
  is_empty, cut_to, limit_of, refusal_of, over_limit,
}
use hexplus_v.Text.{Text, text_eq, text_eq_iff, text_lt}
use hexplus_v.Ovpnguard.Decide.Grouping.{
  IsFiled, group-IsFiled, kills_of, kills_of-kill_for_ne, kills_of-kill_for_self, named,
  named-group, of_user, sessions_of-IsFiled, sessions_of-group, sessions_of_unnamed, unnamed-group,
}

drop-All {ℓ κ} : {A : Type ℓ} (P : A → Type κ) (n : ℕ) (xs : List A) → All P xs → All P (drop n xs)
drop-All P zero xs h = h
drop-All P (suc n) [] h = tt
drop-All P (suc n) (x ∷ xs) (h, hs) = drop-All P n xs hs

drop_all {ℓ} : {A : Type ℓ} (xs : List A) → drop (length xs) xs ≡ []
drop_all [] = refl
drop_all (x ∷ xs) = drop_all xs

drop-nil {ℓ} : {A : Type ℓ} (n : ℕ) → drop {A = A} n [] ≡ []
drop-nil zero = refl
drop-nil (suc n) = refl

-- A user loses the sessions behind some number of kept ones, all for one reason.
cut_to_suffix :
    (l : ℤ) (ss : List Session) → (r : Text) × (k : ℕ) × (cut_to l ss ≡ kill_for r (drop k ss))
unfolding cut_to
cut_to_suffix (negsuc m) ss = ([], length ss, rw drop_all)
cut_to_suffix (pos m) ss = elim (Bool-cases (m == 0 || leb (length ss) m)) [
  | inl e ↦ ([], length ss, rw (e, drop_all))
  | inr e ↦ (over_limit (length ss) m, m, rw e)
]

judge_suffix :
    (p : Policy) (n : Text) (ss : List Session)
    → (r : Text) × (k : ℕ) × (judge p n ss ≡ kill_for r (drop k ss))
unfolding judge
judge_suffix p n ss = elim (Bool-cases (is_empty (refusal_of p n))) [
  | inl e ↦ rw e (cut_to_suffix (limit_of p n) ss)
  | inr e ↦ (refusal_of p n, 0, rw e)
]

module _ (p : Policy) (n : Text) where
  judge_self :
      (ss : List Session) → All (λ s. s.name ≡ n) ss → kills_of n (judge p n ss) ≡ judge p n ss
  judge_self ss h =
      let (r, k, e) = judge_suffix p n ss in
      rw e (kills_of-kill_for_self n r (drop k ss) (drop-All (λ s. s.name ≡ n) k ss h))

  judge_ne :
      (k : Text) (ss : List Session)
      → text_eq k n ≡ false
      → All (λ s. s.name ≡ k) ss
      → kills_of n (judge p k ss) ≡ []
  judge_ne k ss ne h =
      let (r, i, e) = judge_suffix p k ss in
      rw e (kills_of-kill_for_ne n k r (drop i ss) ne (drop-All (λ s. s.name ≡ k) i ss h))

  judge-nil : judge p n [] ≡ []
  judge-nil = let (r, k, e) = judge_suffix p n [] in rw (e, drop-nil)

  module _ (m : List (Text × List Session)) (filed : IsFiled m) where
    sorted_filed : (k : Text) → All (λ s. s.name ≡ k) (sort before (sessions_of k m))
    sorted_filed k =
        sort-All before (λ s. s.name ≡ k) (sessions_of k m) (sessions_of-IsFiled k m filed)

    judge_all_absent : (ns : List Text) → named n ns ≡ 0 → kills_of n (judge_all p m ns) ≡ []
    unfolding judge_all
    judge_all_absent [] h = refl
    judge_all_absent (k ∷ ns) h =
        rw (keep-append (λ x. text_eq x.session.name n) (judge p k (sort before (sessions_of k m))))
          (ground (
            arith,
            judge_ne k (sort before (sessions_of k m)) (ground arith) (sorted_filed k),
            judge_all_absent ns,
          ))

    judge_all_present :
        (ns : List Text)
        → named n ns ≡ 1
        → kills_of n (judge_all p m ns) ≡ judge p n (sort before (sessions_of n m))
    unfolding judge_all
    judge_all_present [] h = absurd (omega arith)
    judge_all_present (k ∷ ns) h =
        rw (keep-append (λ x. text_eq x.session.name n) (judge p k (sort before (sessions_of k m))))
          (elim (Bool-cases (text_eq k n)) [
            | inl e ↦
                rw
                  (
                    (text_eq_iff k n).0 e,
                    judge_self (sort before (sessions_of n m)) (sorted_filed n),
                    judge_all_absent ns (ground arith),
                  )
                  (append-nil _)
            | inr e ↦
                rw (judge_ne k (sort before (sessions_of k m)) e (sorted_filed k))
                  (judge_all_present ns (ground arith))
          ])

-- The kills of a named user are what the policy says of that user's sessions, sorted by
-- preference; other users' sessions make no difference.
pub decide_per_user :
    (ss : List Session) (p : Policy) (n : Text)
    → n ≢ []
    → kills_of n (decide ss p) ≡ judge p n (sort before (of_user n ss))
unfolding decide sessions_of sort
decide_per_user ss p n h =
    let m : List (Text × List Session) = group ss [] in
    elim (one_or_none (named n (names_of m)) (named-group n ss [] (omega arith))) [
      | inl absent ↦
          rw (judge_all_absent p n m filed (sort text_lt (names_of m)) (rw counted absent))
            (rw (← mine) (rw (sessions_of_unnamed n m absent) (sym (judge-nil p n))))
      | inr present ↦
          rw (judge_all_present p n m filed (sort text_lt (names_of m)) (rw counted present))
            (rw mine)
    ]
  where
    filed : IsFiled (group ss [])
    filed = group-IsFiled ss [] tt

    counted : named n (sort text_lt (names_of (group ss []))) ≡ named n (names_of (group ss []))
    counted = tally-sort text_lt (λ k. text_eq k n) (names_of (group ss []))

    mine : sessions_of n (group ss []) ≡ of_user n ss
    mine = sessions_of-group n ss [] h

    one_or_none : (c : ℕ) → c ≤ 1 → (c ≡ 0) ⊎ (c ≡ 1)
    one_or_none c k = omega arith

-- Sessions without a name are never ended.
pub decide_unnamed : (ss : List Session) (p : Policy) → kills_of [] (decide ss p) ≡ []
unfolding decide
decide_unnamed ss p =
    judge_all_absent p [] (group ss []) (group-IsFiled ss [] tt)
      (sort text_lt (names_of (group ss [])))
      (tally-sort text_lt (λ k. text_eq k []) (names_of (group ss [])) ∙ unnamed-group ss [] refl)
