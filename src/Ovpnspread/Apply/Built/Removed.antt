-- ===== src/Ovpnspread/Apply/Built/Removed.antt =====
-- internal/ovpnspread/ovpnspread.go: `removeJumps` leaves what does not jump to the chains.
use hexplus_v.Base.{
  ◌≡◌, refl, sym, ◌∙◌, ◌≢◌, inl, inr, Bool, true, false, not, Option, none, some, List, [], ◌∷◌,
  ◌++◌, map, append_assoc, arith, Bool-cases, drop, keep, All, All-append, All-imp,
}
use hexplus_v.Ovpnspread.{jumps_to}
use hexplus_v.Ovpnspread.Apply.{
  Place, Tool, and_also, attempt, delete_jumps, is_jump, removed_from, remove_jumps_at,
}
use hexplus_v.Ovpnspread.Apply.Built.Steps.{
  IsIptables, attempt_holds, attempt_keeps, is_rule_of, line_of, same_place,
}
use hexplus_v.Text.{Text, codes, text_eq, text_eq_refl}

-- The rules that do not jump to a chain.
abbrev pub without : Text → List (List Text) → List (List Text)
without target = keep (λ r. not (jumps_to r target))

jumps_to-line :
    (chain target : Text) (r : List Text)
    → text_eq chain (codes "-j") ≡ false
    → jumps_to (line_of chain r) target ≡ jumps_to r target
unfolding jumps_to text_eq
jumps_to-line chain target [] h = refl
jumps_to-line chain target (f ∷ r) h = rw h refl

is_jump-line :
    (chain target : Text) (r : List Text)
    → text_eq chain (codes "-j") ≡ false
    → is_jump chain target (line_of chain r) ≡ jumps_to r target
unfolding is_jump
is_jump-line chain target r h =
    rw (text_eq_refl chain, jumps_to-line chain target r h, text_eq_refl (codes "-A")) refl

unruly :
    (chain target : Text) (f : List Text)
    → is_rule_of chain f ≡ false
    → is_jump chain target f ≡ false
unfolding is_jump
unruly chain target [] h = refl
unruly chain target (a ∷ []) h = refl
unruly chain target (a ∷ b ∷ f) h = ground (arith, h)

module _ {K : Type 0} (tool : Tool K) where
  -- Lines that are no rules of the chain do not count.
  delete_jumps-keep :
      (c : Place) (target : Text) (fs : List (List Text)) (k : K)
      → delete_jumps tool c target fs k
        ≡ delete_jumps tool c target (keep (is_rule_of c.chain) fs) k
  unfolding delete_jumps
  delete_jumps-keep c target [] k = refl
  delete_jumps-keep c target (f ∷ fs) k = elim (Bool-cases (is_rule_of c.chain f)) [
    | inr e ↦ rw (e, unruly c.chain target f e) (delete_jumps-keep c target fs k)
    | inl e ↦ elim (Bool-cases (is_jump c.chain target f)) [
      | inl jumps ↦
          rw (e, jumps)
            (rw (delete_jumps-keep c target fs (attempt k (tool.deleted c (drop 2 f) k)).0) refl)
      | inr stays ↦ rw (e, stays) (delete_jumps-keep c target fs k)
    ]
  ]

  pub and_also_done :
      (r : K × Bool) (f : K → K × Bool)
      → (and_also r f).1 ≡ true
      → (r.1 ≡ true) × ((f r.0).1 ≡ true)
  and_also_done (k, ok) f done = ground arith

module _ {K : Type 0} (tool : Tool K) (shown : List Text → List Text)
    (rules : Place → K → List (List Text)) (laws : IsIptables tool shown rules) where
  -- Behind the rules that do not jump, the loop takes one rule after another.
  delete_jumps_lem :
      (c : Place) (target : Text) (rest before : List (List Text)) (k : K)
      → text_eq c.chain (codes "-j") ≡ false
      → rules c k ≡ before ++ rest
      → All (λ r. jumps_to r target ≡ false) before
      → (delete_jumps tool c target (map (line_of c.chain) rest) k).1 ≡ true
      → rules c (delete_jumps tool c target (map (line_of c.chain) rest) k).0
        ≡ before ++ without target rest
  unfolding delete_jumps
  delete_jumps_lem c target [] before k plain e clean done = e
  delete_jumps_lem c target (r ∷ rest) before k plain e clean done =
      elim (Bool-cases (jumps_to r target)) [
        | inl jumps ↦
            let taken = rw (is_jump-line c.chain target r plain, jumps) at done in
            let (deleted, others) =
              and_also_done tool (attempt k (tool.deleted c r k))
                (delete_jumps tool c target (map (line_of c.chain) rest)) taken in
            rw (is_jump-line c.chain target r plain, jumps)
              (delete_jumps_lem c target rest before (attempt k (tool.deleted c r k)).0 plain
                (attempt_holds (λ k'. rules c k' ≡ before ++ rest) k (tool.deleted c r k)
                  (λ k' o. laws.deletes c r before rest k k' o e (
                    All-imp (λ s. jumps_to s target ≡ false) (λ s. s ≢ r) before
                      (λ s stays same. ground (arith, stays, jumps, rw same at stays)) clean))
                  deleted)
                clean others)
        | inr stays ↦
            rw (is_jump-line c.chain target r plain, stays)
              (delete_jumps_lem c target rest (before ++ r ∷ []) k plain
                  (e ∙ sym (append_assoc before (r ∷ []) rest))
                  (All-append (λ s. jumps_to s target ≡ false) before (r ∷ []) clean (stays, tt))
                  (rw (is_jump-line c.chain target r plain, stays) at done)
                ∙ append_assoc before (r ∷ []) (without target rest))
      ]

  delete_jumps_elsewhere :
      (c d : Place) (target : Text) (fs before : List (List Text)) (k : K)
      → same_place c d ≡ false
      → rules d k ≡ before
      → rules d (delete_jumps tool c target fs k).0 ≡ before
  unfolding delete_jumps
  delete_jumps_elsewhere c d target [] before k other h = h
  delete_jumps_elsewhere c d target (f ∷ fs) before k other h =
      elim (Bool-cases (is_jump c.chain target f)) [
        | inl e ↦ rw e (
            delete_jumps_elsewhere c d target fs before (attempt k (tool.deleted c (drop 2 f) k)).0
              other
              (attempt_keeps (rules d) before k (tool.deleted c (drop 2 f) k) h
                (λ k' o. laws.deleted_elsewhere c d (drop 2 f) k k' other o)))
        | inr e ↦ rw e (delete_jumps_elsewhere c d target fs before k other h)
      ]

  -- Every rule that jumps to the chain goes, and no other.
  pub remove_jumps_at_lem :
      (c : Place) (target : Text) (k : K)
      → text_eq c.chain (codes "-j") ≡ false
      → (remove_jumps_at tool c target k).1 ≡ true
      → rules c (remove_jumps_at tool c target k).0 ≡ without target (rules c k)
  unfolding remove_jumps_at
  remove_jumps_at_lem c target k plain = split (tool.listed c k) refl
    where
      split :
          (o : Option (List (List Text)))
          → tool.listed c k ≡ o
          → (removed_from tool c target k o).1 ≡ true
          → rules c (removed_from tool c target k o).0 ≡ without target (rules c k)
      split none e done = absurd (ground (arith, done))
      split (some lines) e done =
          rw (delete_jumps-keep tool c target lines k, laws.lists c k lines e)
            (delete_jumps_lem c target (rules c k) [] k plain refl tt
              (rw (delete_jumps-keep tool c target lines k, laws.lists c k lines e) at done))

  pub remove_jumps_at_elsewhere :
      (c d : Place) (target : Text) (k : K)
      → same_place c d ≡ false
      → rules d (remove_jumps_at tool c target k).0 ≡ rules d k
  unfolding remove_jumps_at
  remove_jumps_at_elsewhere c d target k other = split (tool.listed c k)
    where
      split :
          (o : Option (List (List Text))) → rules d (removed_from tool c target k o).0 ≡ rules d k
      split none = refl
      split (some lines) = delete_jumps_elsewhere c d target lines (rules d k) k other refl
