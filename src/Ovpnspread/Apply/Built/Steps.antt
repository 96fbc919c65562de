-- ===== src/Ovpnspread/Apply/Built/Steps.antt =====
-- internal/ovpnspread/ovpnspread.go: the steps of `applyPlan` that fill chains and insert jumps.
use hexplus_v.Base.{
  ◌≡◌, refl, sym, ap, ◌∙◌, ◌≢◌, Bool, true, false, ◌&&◌, Option, none, some, List, [], ◌∷◌, ◌++◌,
  map, append_assoc, append-nil, arith, keep, All,
}
use hexplus_v.Ovpnspread.Apply.{
  Place, Tool, and_then, append_rules, attempt, ensure_chain, ensured, fill_chain,
}
use hexplus_v.Text.{Text, codes, text_eq}

abbrev pub same_place : Place → Place → Bool
same_place c d = text_eq c.table d.table && text_eq c.chain d.chain

-- The fields of the line that `-S` prints for a rule.
abbrev pub line_of : Text → List Text → List Text
line_of chain r = codes "-A" ∷ chain ∷ r

abbrev pub is_rule_of : Text → List Text → Bool
is_rule_of chain (a ∷ b ∷ fs) = text_eq a (codes "-A") && text_eq b chain
is_rule_of chain _ = false

-- What iptables documents: `rules c k` are the rules of a chain, as `-S` prints them, and `shown` is
-- what it prints for a rule that is given.
pub record IsIptables {K : Type 0} (tool : Tool K) (shown : List Text → List Text)
    (rules : Place → K → List (List Text)) : Type 0 where
  pub lists :
      (c : Place) (k : K) (lines : List (List Text))
      → tool.listed c k ≡ some lines
      → keep (is_rule_of c.chain) lines ≡ map (line_of c.chain) (rules c k)
  pub empties : (c : Place) (k k' : K) → tool.flushed c k ≡ some k' → rules c k' ≡ []
  pub appends :
      (c : Place) (r : List Text) (k k' : K)
      → tool.appended c r k ≡ some k'
      → rules c k' ≡ rules c k ++ shown r ∷ []
  pub inserts :
      (c : Place) (r : List Text) (k k' : K)
      → tool.inserted c r k ≡ some k'
      → rules c k' ≡ shown r ∷ rules c k
  pub deletes :
      (c : Place) (r : List Text) (before after : List (List Text)) (k k' : K)
      → tool.deleted c r k ≡ some k'
      → rules c k ≡ before ++ r ∷ after
      → All (λ s. s ≢ r) before
      → rules c k' ≡ before ++ after
  pub new_elsewhere :
      (c d : Place) (k k' : K)
      → same_place c d ≡ false
      → tool.new_chain c k ≡ some k'
      → rules d k' ≡ rules d k
  pub flushed_elsewhere :
      (c d : Place) (k k' : K)
      → same_place c d ≡ false
      → tool.flushed c k ≡ some k'
      → rules d k' ≡ rules d k
  pub appended_elsewhere :
      (c d : Place) (r : List Text) (k k' : K)
      → same_place c d ≡ false
      → tool.appended c r k ≡ some k'
      → rules d k' ≡ rules d k
  pub inserted_elsewhere :
      (c d : Place) (r : List Text) (k k' : K)
      → same_place c d ≡ false
      → tool.inserted c r k ≡ some k'
      → rules d k' ≡ rules d k
  pub deleted_elsewhere :
      (c d : Place) (r : List Text) (k k' : K)
      → same_place c d ≡ false
      → tool.deleted c r k ≡ some k'
      → rules d k' ≡ rules d k

-- What holds behind steps that have all succeeded.
pub and_then_holds :
    {K : Type 0} (P Q : K → Type 0) (r : K × Bool) (f : K → K × Bool)
    → (r.1 ≡ true → P r.0)
    → ((k : K) → P k → (f k).1 ≡ true → Q (f k).0)
    → (and_then r f).1 ≡ true
    → Q (and_then r f).0
and_then_holds P Q (k, true) f first second done = second k (first refl) done
and_then_holds P Q (k, false) f first second done = absurd (ground (arith, done))

pub attempt_holds :
    {K : Type 0} (P : K → Type 0) (k : K) (o : Option K)
    → ((k' : K) → o ≡ some k' → P k')
    → (attempt k o).1 ≡ true
    → P (attempt k o).0
attempt_holds P k none h done = absurd (ground (arith, done))
attempt_holds P k (some k') h done = h k' refl

-- What no step changes, whether it succeeds or not.
pub and_then_keeps :
    {K A : Type 0} (view : K → A) (a : A) (r : K × Bool) (f : K → K × Bool)
    → view r.0 ≡ a
    → ((k : K) → view k ≡ a → view (f k).0 ≡ a)
    → view (and_then r f).0 ≡ a
and_then_keeps view a (k, true) f first second = second k first
and_then_keeps view a (k, false) f first second = first

pub attempt_keeps :
    {K A : Type 0} (view : K → A) (a : A) (k : K) (o : Option K)
    → view k ≡ a
    → ((k' : K) → o ≡ some k' → view k' ≡ view k)
    → view (attempt k o).0 ≡ a
attempt_keeps view a k none h same = h
attempt_keeps view a k (some k') h same = same k' refl ∙ h

module _ {K : Type 0} (tool : Tool K) (shown : List Text → List Text)
    (rules : Place → K → List (List Text)) (laws : IsIptables tool shown rules) where
  append_rules_lem :
      (c : Place) (rs before : List (List Text)) (k : K)
      → rules c k ≡ before
      → (append_rules tool c rs k).1 ≡ true
      → rules c (append_rules tool c rs k).0 ≡ before ++ map shown rs
  unfolding append_rules
  append_rules_lem c [] before k h done = h ∙ sym (append-nil before)
  append_rules_lem c (r ∷ rs) before k h done =
      and_then_holds (λ k'. rules c k' ≡ before ++ shown r ∷ [])
        (λ k'. rules c k' ≡ before ++ shown r ∷ map shown rs) (attempt k (tool.appended c r k))
        (append_rules tool c rs)
        (attempt_holds (λ k'. rules c k' ≡ before ++ shown r ∷ []) k (tool.appended c r k)
          (λ k' e. laws.appends c r k k' e ∙ ap (λ s. s ++ shown r ∷ []) h))
        (λ k' e ok.
          append_rules_lem c rs (before ++ shown r ∷ []) k' e ok
          ∙ append_assoc before (shown r ∷ []) (map shown rs))
        done

  append_rules_elsewhere :
      (c d : Place) (rs before : List (List Text)) (k : K)
      → same_place c d ≡ false
      → rules d k ≡ before
      → rules d (append_rules tool c rs k).0 ≡ before
  unfolding append_rules
  append_rules_elsewhere c d [] before k other h = h
  append_rules_elsewhere c d (r ∷ rs) before k other h =
      and_then_keeps (rules d) before (attempt k (tool.appended c r k)) (append_rules tool c rs)
        (attempt_keeps (rules d) before k (tool.appended c r k) h
          (λ k' e. laws.appended_elsewhere c d r k k' other e))
        (λ k' e. append_rules_elsewhere c d rs before k' other e)

  -- A chain that is filled holds the rules and nothing else.
  pub fill_chain_lem :
      (c : Place) (rs : List (List Text)) (k : K)
      → (fill_chain tool c rs k).1 ≡ true
      → rules c (fill_chain tool c rs k).0 ≡ map shown rs
  unfolding fill_chain
  fill_chain_lem c rs k done =
      and_then_holds (λ k1. Unit) (λ k1. rules c k1 ≡ map shown rs) (ensure_chain tool c k)
        (λ k1. and_then (attempt k1 (tool.flushed c k1)) (append_rules tool c rs)) (λ e. tt)
        (λ k1 e.
          and_then_holds (λ k2. rules c k2 ≡ []) (λ k2. rules c k2 ≡ map shown rs)
            (attempt k1 (tool.flushed c k1)) (append_rules tool c rs)
            (attempt_holds (λ k2. rules c k2 ≡ []) k1 (tool.flushed c k1)
              (λ k2 o. laws.empties c k1 k2 o))
            (λ k2 none_left ok. append_rules_lem c rs [] k2 none_left ok))
        done

  ensure_chain_elsewhere :
      (c d : Place) (k : K) → same_place c d ≡ false → rules d (ensure_chain tool c k).0 ≡ rules d k
  unfolding ensure_chain
  ensure_chain_elsewhere c d k other = split (tool.listed c k)
    where
      split : (o : Option (List (List Text))) → rules d (ensured tool c k o).0 ≡ rules d k
      split none =
          attempt_keeps (rules d) (rules d k) k (tool.new_chain c k) refl
            (λ k' e. laws.new_elsewhere c d k k' other e)
      split (some lines) = refl

  pub fill_chain_elsewhere :
      (c d : Place) (rs : List (List Text)) (k : K)
      → same_place c d ≡ false
      → rules d (fill_chain tool c rs k).0 ≡ rules d k
  unfolding fill_chain
  fill_chain_elsewhere c d rs k other =
      and_then_keeps (rules d) (rules d k) (ensure_chain tool c k)
        (λ k1. and_then (attempt k1 (tool.flushed c k1)) (append_rules tool c rs))
        (ensure_chain_elsewhere c d k other)
        (λ k1 e.
          and_then_keeps (rules d) (rules d k) (attempt k1 (tool.flushed c k1))
            (append_rules tool c rs)
            (attempt_keeps (rules d) (rules d k) k1 (tool.flushed c k1) e
              (λ k2 o. laws.flushed_elsewhere c d k1 k2 other o))
            (λ k2 e'. append_rules_elsewhere c d rs (rules d k) k2 other e'))
