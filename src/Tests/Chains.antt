-- ===== src/Tests/Chains.antt =====
-- internal/ovpnspread/ovpnspread.go: `applyPlan` on chains that hold old rules.
use hexplus_v.Base.{
  ◌≡◌, refl, ap, ◌∙◌, ◌≢◌, inl, inr, Bool, true, false, ◌&&◌, none, some, List, [], ◌∷◌, ◌++◌, map,
  arith, if◌then◌else◌, Bool-cases, keep, All,
}
use mathlib.Core.Option.{some-injective}
use hexplus_v.Ovpnspread.{Plan, nat_chain}
use hexplus_v.Ovpnspread.Apply.{Place, Tool, apply_plan, prerouting, nat_place}
use hexplus_v.Ovpnspread.Apply.Built.{IsBuilt, apply_plan-IsBuilt}
use hexplus_v.Ovpnspread.Apply.Built.Steps.{IsIptables, is_rule_of, line_of, same_place}
use hexplus_v.Text.{Text, codes, text_eq, text_eq_iff, text_eq_refl}

abbrev Chains : Type 0
Chains = Place → List (List Text)

abbrev set_chain : Place → List (List Text) → Chains → Chains
set_chain c rs k d = if same_place c d then rs else k d

abbrev same_rule : List Text → List Text → Bool
same_rule [] [] = true
same_rule (a ∷ s) (b ∷ t) = text_eq a b && same_rule s t
same_rule _ _ = false

abbrev drop_rule : List Text → List (List Text) → List (List Text)
drop_rule r [] = []
drop_rule r (s ∷ rs) = let rest = drop_rule r rs in if same_rule s r then rs else s ∷ rest

same_rule_refl : (r : List Text) → same_rule r r ≡ true
same_rule_refl [] = refl
same_rule_refl (a ∷ s) = rw (text_eq_refl a, same_rule_refl s) refl

same_rule_eq : (r s : List Text) → same_rule r s ≡ true → r ≡ s
same_rule_eq [] [] h = refl
same_rule_eq [] (b ∷ t) h = absurd (ground (arith, h))
same_rule_eq (a ∷ s) [] h = absurd (ground (arith, h))
same_rule_eq (a ∷ s) (b ∷ t) h =
    cc ((text_eq_iff a b).0 (ground (arith, h)), same_rule_eq s t (ground (arith, h)))

drop_rule_lem :
    (r : List Text) (before after : List (List Text))
    → All (λ s. s ≢ r) before
    → drop_rule r (before ++ r ∷ after) ≡ before ++ after
drop_rule_lem r [] after _ = rw (same_rule_refl r) refl
drop_rule_lem r (s ∷ before) after (other, rest) = elim (Bool-cases (same_rule s r)) [
  | inl e ↦ absurd (other (same_rule_eq s r e))
  | inr e ↦ rw (e, drop_rule_lem r before after rest) refl
]

-- A firewall whose chains are all there.
abbrev chains_tool : Tool Chains
chains_tool = record {
  listed = λ c k. some (map (line_of c.chain) (k c));
  new_chain = λ c k. none;
  flushed = λ c k. some (set_chain c [] k);
  appended = λ c r k. some (set_chain c (k c ++ r ∷ []) k);
  inserted = λ c r k. some (set_chain c (r ∷ k c) k);
  deleted = λ c r k. some (set_chain c (drop_rule r (k c)) k);
}

abbrev as_given : List Text → List Text
as_given r = r

abbrev rules_of : Place → Chains → List (List Text)
rules_of c k = k c

lines-rules :
    (chain : Text) (rs : List (List Text))
    → keep (is_rule_of chain) (map (line_of chain) rs) ≡ map (line_of chain) rs
lines-rules chain [] = refl
lines-rules chain (r ∷ rs) =
    rw (text_eq_refl (codes "-A"), text_eq_refl chain, lines-rules chain rs) refl

set_here :
    (c : Place) (rs : List (List Text)) (k k' : Chains)
    → some (set_chain c rs k) ≡ some k'
    → k' c ≡ rs
set_here c rs k k' e =
    rw (← some-injective (set_chain c rs k) k' e)
      (rw (text_eq_refl c.table, text_eq_refl c.chain) refl)

set_elsewhere :
    (c d : Place) (rs : List (List Text)) (k k' : Chains)
    → same_place c d ≡ false
    → some (set_chain c rs k) ≡ some k'
    → k' d ≡ k d
set_elsewhere c d rs k k' other e = rw (← some-injective (set_chain c rs k) k' e) (rw other refl)

chains_tool-IsIptables : IsIptables chains_tool as_given rules_of
chains_tool-IsIptables = record {
  lists = λ c k lines e.
      rw (← some-injective (map (line_of c.chain) (k c)) lines e) (lines-rules c.chain (k c));
  empties = λ c k k' e. set_here c [] k k' e;
  appends = λ c r k k' e. set_here c (k c ++ r ∷ []) k k' e;
  inserts = λ c r k k' e. set_here c (r ∷ k c) k k' e;
  deletes = λ c r before after k k' e h others.
      set_here c (drop_rule r (k c)) k k' e
      ∙ ap (drop_rule r) h
      ∙ drop_rule_lem r before after others;
  new_elsewhere = λ c d k k' other e. absurd (none-ne-some k' e);
  flushed_elsewhere = λ c d k k' other e. set_elsewhere c d [] k k' other e;
  appended_elsewhere = λ c d r k k' other e. set_elsewhere c d (k c ++ r ∷ []) k k' other e;
  inserted_elsewhere = λ c d r k k' other e. set_elsewhere c d (r ∷ k c) k k' other e;
  deleted_elsewhere = λ c d r k k' other e. set_elsewhere c d (drop_rule r (k c)) k k' other e;
}
  where
    none-ne-some : (k : Chains) → (none ≢ some k)
    none-ne-some k e = ground (arith, e)

-- An old jump for another port between two rules of the operator.
abbrev old_chains : Chains
old_chains c =
    if same_place prerouting c
    then (codes "-i" ∷ codes "eth0" ∷ codes "-j" ∷ codes "ACCEPT" ∷ [])
      ∷ (codes "--dport" ∷ codes "443" ∷ codes "-j" ∷ nat_chain ∷ [])
      ∷ (codes "-j" ∷ codes "DOCKER" ∷ [])
      ∷ []
    else if same_place nat_place c
    then (codes "-j" ∷ codes "REDIRECT" ∷ []) ∷ []
    else []

abbrev plan : Plan
plan = record { proto = codes "tcp"; port = 1194; workers = 21195 ∷ [] }

apply_plan-IsBuilt_example :
    IsBuilt as_given
      (λ d. rules_of d old_chains)
      (λ d. rules_of d (apply_plan chains_tool plan old_chains).0)
      plan
unfolding apply_plan hexplus_v.Ovpnspread.nat_rules hexplus_v.Ovpnspread.input_rules text_eq
    hexplus_v.Ovpnspread.Apply.is_jump hexplus_v.Ovpnspread.jumps
apply_plan-IsBuilt_example =
    apply_plan-IsBuilt chains_tool as_given rules_of plan old_chains chains_tool-IsIptables refl
