-- ===== src/Ovpnguard/Decide/Verdicts.antt =====
-- What `Decide` does to each user, on each branch of the policy.
use hexplus_v.Base.{
  ℕ, zero, suc, ◌-◌, ◌≤◌, ◌≡◌, refl, ap, ◌∙◌, ◌≢◌, ◌⊎◌, inl, inr, false, List, [], ◌∷◌, arith,
  length, take, drop, length-drop, All,
}
use hexplus_v.Base.Int.{pos, negsuc}
use hexplus_v.Base.Order.{IsSorted, sort, sort-IsSorted, length-sort}
use hexplus_v.Ovpnguard.Decide.{
  Session, Policy, before, judge, decide, kill_for, cut_to, limit_of, refusal_of, over_limit,
  is_empty,
}
use hexplus_v.Ovpnguard.Decide.Grouping.{of_user, kills_of}
use hexplus_v.Ovpnguard.Decide.PerUser.{decide_per_user}
use hexplus_v.Ovpnguard.Decide.Preference.{before-StrictOrder}
use hexplus_v.Text.{Text}

-- The sessions of a user in the order in which they are kept.
abbrev pub ranked : Text → List Session → List Session
ranked n ss = sort before (of_user n ss)

nonempty : (t : Text) → t ≢ [] → is_empty t ≡ false
nonempty [] h = absurd (h refl)
nonempty (c ∷ t) h = refl

drop-le {ℓ} : {A : Type ℓ} (k : ℕ) (xs : List A) → length xs ≤ k → drop k xs ≡ []
drop-le zero [] h = refl
drop-le zero (x ∷ xs) h = absurd (omega arith)
drop-le (suc k) [] h = refl
drop-le (suc k) (x ∷ xs) h = drop-le k xs (omega arith)

-- With a positive limit, what is cut is what stands behind the first `limit` sessions.
cut_to-pos :
    (l : ℕ) (ss : List Session)
    → cut_to (pos (suc l)) ss ≡ kill_for (over_limit (length ss) (suc l)) (drop (suc l) ss)
unfolding cut_to
cut_to-pos l ss = ground (arith, drop-le (suc l) ss)

length-kill_for : (r : Text) (ss : List Session) → length (kill_for r ss) ≡ length ss
length-kill_for r [] = refl
length-kill_for r (s ∷ ss) = ap suc (length-kill_for r ss)

-- The items before a cut of a sorted list do not come after those behind it.
module _ where
  drop_not_before :
      (a : Session) (k : ℕ) (ss : List Session)
      → All (λ b. before b a ≡ false) ss
      → All (λ b. before b a ≡ false) (drop k ss)
  drop_not_before a zero ss h = h
  drop_not_before a (suc k) [] h = tt
  drop_not_before a (suc k) (s ∷ ss) (h, hs) = drop_not_before a k ss hs

  kill_for_not_before :
      (r : Text) (a : Session) (ss : List Session)
      → All (λ b. before b a ≡ false) ss
      → All (λ k. before k.session a ≡ false) (kill_for r ss)
  kill_for_not_before r a [] h = tt
  kill_for_not_before r a (s ∷ ss) (h, hs) = (h, kill_for_not_before r a ss hs)

  sorted_cut :
      (r : Text) (k : ℕ) (ss : List Session)
      → IsSorted before ss
      → All (λ a. All (λ x. before x.session a ≡ false) (kill_for r (drop k ss))) (take k ss)
  sorted_cut r zero ss h = tt
  sorted_cut r (suc k) [] h = tt
  sorted_cut r (suc k) (s ∷ ss) (h, hs) =
      (kill_for_not_before r s (drop k ss) (drop_not_before s k ss h), sorted_cut r k ss hs)

module _ (ss : List Session) (p : Policy) (n : Text) (named : n ≢ []) where
  -- A refused user with a name, whatever the limit, loses every session, with the reason that the policy gives.
  pub refused_loses_all :
      refusal_of p n ≢ [] → kills_of n (decide ss p) ≡ kill_for (refusal_of p n) (ranked n ss)
  unfolding judge
  refused_loses_all r = rw (decide_per_user ss p n named, nonempty (refusal_of p n) r)

  module _ (free : refusal_of p n ≡ []) where
    free_judge : (xs : List Session) → judge p n xs ≡ cut_to (limit_of p n) xs
    unfolding judge
    free_judge xs = rw free

    -- A user with a name and a positive limit that is not refused loses exactly the sessions behind the
    -- first `limit` ones in the order of preference: none, if there are no more.
    pub over_limit_loses_rest :
        (l : ℕ)
        → limit_of p n ≡ pos (suc l)
        → kills_of n (decide ss p)
          ≡ kill_for (over_limit (length (of_user n ss)) (suc l)) (drop (suc l) (ranked n ss))
    over_limit_loses_rest l e = rw (
      decide_per_user ss p n named,
      free_judge (ranked n ss),
      e,
      cut_to-pos l (ranked n ss),
      length-sort before (of_user n ss),
    )

    -- Of a user with a name and a positive limit that is not refused, as many sessions are ended as
    -- are over the limit, and none of them is preferred to one of the first `limit` in the order of
    -- preference.
    pub limit_keeps_preferred :
        (l : ℕ)
        → limit_of p n ≡ pos (suc l)
        → (length (kills_of n (decide ss p)) ≡ length (of_user n ss) - suc l)
          × All
              (λ a. All (λ k. before k.session a ≡ false) (kills_of n (decide ss p)))
              (take (suc l) (ranked n ss))
    limit_keeps_preferred l e = rw (over_limit_loses_rest l e) (
      length-kill_for _ (drop (suc l) (ranked n ss))
          ∙ length-drop (suc l) (ranked n ss)
          ∙ ap (λ (k : ℕ). k - suc l) (length-sort before (of_user n ss)),
      sorted_cut _ (suc l) (ranked n ss) (sort-IsSorted before before-StrictOrder (of_user n ss)),
    )

    -- A limit of zero or less ends no session of a user that is not refused.
    pub no_limit_keeps_all :
        (limit_of p n ≡ pos 0) ⊎ ((m : ℕ) × (limit_of p n ≡ negsuc m))
        → kills_of n (decide ss p) ≡ []
    unfolding cut_to
    no_limit_keeps_all (inl e) = rw (decide_per_user ss p n named, free_judge (ranked n ss), e)
    no_limit_keeps_all (inr (m, e)) = rw (decide_per_user ss p n named, free_judge (ranked n ss), e)
