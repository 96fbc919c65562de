-- ===== src/Ovpnspread/Apply/Built.antt =====
-- internal/ovpnspread/ovpnspread.go: what `applyPlan` leaves in the chains.
pub mod Steps
pub mod Removed
use hexplus_v.Base.{
  ◌≡◌, refl, sym, ap, ◌∙◌, inl, inr, true, false, some, List, [], ◌∷◌, map, arith, if◌then◌else◌,
  Bool-cases, All,
}
use hexplus_v.Ovpnspread.{Jump, Plan, input_chain, input_rules, jumps, nat_chain, nat_rules}
use hexplus_v.Ovpnspread.Apply.{
  Place, Tool, and_also, and_then, apply_plan, attempt, fill_chain, input, input_place,
  insert_jumps, nat_place, output, prerouting, remove_jumps, remove_jumps_at,
}
use hexplus_v.Ovpnspread.Apply.Built.Steps.{
  IsIptables, and_then_holds, attempt_holds, fill_chain_elsewhere, fill_chain_lem, same_place,
}
use hexplus_v.Ovpnspread.Apply.Built.Removed.{
  and_also_done, remove_jumps_at_elsewhere, remove_jumps_at_lem, without,
}
use hexplus_v.Text.{Text, codes, text_eq, text_eq_iff}
use hexplus_v.Text.Number.{format}

-- The jumps of a plan, as rules.
abbrev pub from_outside : Plan → List Text
from_outside p =
    codes "-p"
    ∷ p.proto
    ∷ codes "-m"
    ∷ codes "addrtype"
    ∷ codes "--dst-type"
    ∷ codes "LOCAL"
    ∷ codes "--dport"
    ∷ format p.port
    ∷ codes "-j"
    ∷ nat_chain
    ∷ []

abbrev pub from_host : Plan → List Text
from_host p =
    codes "-o"
    ∷ codes "lo"
    ∷ codes "-d"
    ∷ codes "127.0.0.0/8"
    ∷ codes "-p"
    ∷ p.proto
    ∷ codes "--dport"
    ∷ format p.port
    ∷ codes "-j"
    ∷ nat_chain
    ∷ []

abbrev pub to_input : List Text
to_input = codes "-j" ∷ input_chain ∷ []

-- What the chains are to be behind `applyPlan`, with what they were before.
pub record IsBuilt (shown : List Text → List Text) (old new : Place → List (List Text)) (p : Plan)
    : Type 0 where
  pub spread : new nat_place ≡ map shown (nat_rules p)
  pub admitted : new input_place ≡ map shown (input_rules p)
  pub outside : new prerouting ≡ shown (from_outside p) ∷ without nat_chain (old prerouting)
  pub host : new output ≡ shown (from_host p) ∷ without nat_chain (old output)
  pub entered : new input ≡ shown to_input ∷ without input_chain (old input)
  pub elsewhere :
      (d : Place)
      → All
          (λ c. same_place c d ≡ false)
          (nat_place ∷ input_place ∷ prerouting ∷ output ∷ input ∷ [])
      → new d ≡ old d

-- The rules with those of one chain replaced.
abbrev put : Place → List (List Text) → (Place → List (List Text)) → Place → List (List Text)
put c rs view d = if same_place c d then rs else view d

same_place_eq : (c d : Place) → same_place c d ≡ true → c ≡ d
same_place_eq c d h = cc (
  (text_eq_iff c.table d.table).0 (ground (arith, h)),
  (text_eq_iff c.chain d.chain).0 (ground (arith, h)),
)

module _ {K : Type 0} (tool : Tool K) (shown : List Text → List Text)
    (rules : Place → K → List (List Text)) (laws : IsIptables tool shown rules) where
  abbrev Agrees : (Place → List (List Text)) → K → Type 0
  Agrees view k = (d : Place) → rules d k ≡ view d

  put-Agrees :
      (c : Place) (rs : List (List Text)) (view : Place → List (List Text)) (k : K)
      → rules c k ≡ rs
      → ((d : Place) → same_place c d ≡ false → rules d k ≡ view d)
      → Agrees (put c rs view) k
  put-Agrees c rs view k here there d = elim (Bool-cases (same_place c d)) [
    | inl e ↦ rw e (ap (λ x. rules x k) (sym (same_place_eq c d e)) ∙ here)
    | inr e ↦ rw e (there d e)
  ]

  fill_chain-Agrees :
      (c : Place) (rs : List (List Text)) (view : Place → List (List Text)) (k : K)
      → Agrees view k
      → (fill_chain tool c rs k).1 ≡ true
      → Agrees (put c (map shown rs) view) (fill_chain tool c rs k).0
  fill_chain-Agrees c rs view k h done =
      put-Agrees c (map shown rs) view (fill_chain tool c rs k).0
        (fill_chain_lem tool shown rules laws c rs k done)
        (λ d other. fill_chain_elsewhere tool shown rules laws c d rs k other ∙ h d)

  remove_jumps_at-Agrees :
      (c : Place) (target : Text) (view : Place → List (List Text)) (k : K)
      → text_eq c.chain (codes "-j") ≡ false
      → Agrees view k
      → (remove_jumps_at tool c target k).1 ≡ true
      → Agrees (put c (without target (view c)) view) (remove_jumps_at tool c target k).0
  remove_jumps_at-Agrees c target view k plain h done =
      put-Agrees c (without target (view c)) view (remove_jumps_at tool c target k).0
        (remove_jumps_at_lem tool shown rules laws c target k plain done
          ∙ ap (without target) (h c))
        (λ d other. remove_jumps_at_elsewhere tool shown rules laws c d target k other ∙ h d)

  inserted-Agrees :
      (c : Place) (r : List Text) (view : Place → List (List Text)) (k k' : K)
      → Agrees view k
      → tool.inserted c r k ≡ some k'
      → Agrees (put c (shown r ∷ view c) view) k'
  inserted-Agrees c r view k k' h e =
      put-Agrees c (shown r ∷ view c) view k'
        (laws.inserts c r k k' e ∙ ap (λ rs. shown r ∷ rs) (h c))
        (λ d other. laws.inserted_elsewhere c d r k k' other e ∙ h d)

  abbrev place_of : Jump → Place
  place_of j = record { table = j.table; chain = j.chain }

  abbrev put_all : List Jump → (Place → List (List Text)) → Place → List (List Text)
  put_all [] view = view
  put_all (j ∷ js) view = put_all js (put (place_of j) (shown j.spec ∷ view (place_of j)) view)

  insert_jumps-Agrees :
      (js : List Jump) (view : Place → List (List Text)) (k : K)
      → Agrees view k
      → (insert_jumps tool js k).1 ≡ true
      → Agrees (put_all js view) (insert_jumps tool js k).0
  unfolding insert_jumps
  insert_jumps-Agrees [] view k h done = h
  insert_jumps-Agrees (j ∷ js) view k h done =
      and_then_holds (Agrees (put (place_of j) (shown j.spec ∷ view (place_of j)) view))
        (Agrees (put_all (j ∷ js) view)) (attempt k (tool.inserted (place_of j) j.spec k))
        (insert_jumps tool js)
        (attempt_holds (Agrees (put (place_of j) (shown j.spec ∷ view (place_of j)) view)) k
          (tool.inserted (place_of j) j.spec k)
          (λ k' e. inserted-Agrees (place_of j) j.spec view k k' h e))
        (λ k' g ok.
          insert_jumps-Agrees js (put (place_of j) (shown j.spec ∷ view (place_of j)) view) k' g ok)
        done

  abbrev taken : Place → Text → (Place → List (List Text)) → Place → List (List Text)
  taken c target view = put c (without target (view c)) view

  abbrev all_taken : (Place → List (List Text)) → Place → List (List Text)
  all_taken view =
      taken input input_chain (taken output nat_chain (taken prerouting nat_chain view))

  remove_jumps-Agrees :
      (view : Place → List (List Text)) (k : K)
      → Agrees view k
      → (remove_jumps tool k).1 ≡ true
      → Agrees (all_taken view) (remove_jumps tool k).0
  unfolding remove_jumps text_eq
  remove_jumps-Agrees view k h done =
      let k1 = (remove_jumps_at tool prerouting nat_chain k).0 in
      let k2 = (remove_jumps_at tool output nat_chain k1).0 in
      let (first, others) =
        and_also_done tool (remove_jumps_at tool prerouting nat_chain k)
          (λ k1.
            and_also (remove_jumps_at tool output nat_chain k1)
              (remove_jumps_at tool input input_chain))
          done in
      let (second, third) =
        and_also_done tool (remove_jumps_at tool output nat_chain k1)
          (remove_jumps_at tool input input_chain) others in
      remove_jumps_at-Agrees input input_chain
        (taken output nat_chain (taken prerouting nat_chain view)) k2 refl
        (remove_jumps_at-Agrees output nat_chain (taken prerouting nat_chain view) k1 refl
          (remove_jumps_at-Agrees prerouting nat_chain view k refl h first) second)
        third

  abbrev filled : Plan → (Place → List (List Text)) → Place → List (List Text)
  filled p view =
      put input_place (map shown (input_rules p)) (put nat_place (map shown (nat_rules p)) view)

  apply_plan-Agrees :
      (p : Plan) (view : Place → List (List Text)) (k : K)
      → Agrees view k
      → (apply_plan tool p k).1 ≡ true
      → Agrees (put_all (jumps p) (all_taken (filled p view))) (apply_plan tool p k).0
  unfolding apply_plan
  apply_plan-Agrees p view k h =
      and_then_holds (Agrees (put nat_place (map shown (nat_rules p)) view))
        (Agrees (put_all (jumps p) (all_taken (filled p view))))
        (fill_chain tool nat_place (nat_rules p) k)
        (λ k1.
          and_then (fill_chain tool input_place (input_rules p) k1)
            (λ k2. and_then (remove_jumps tool k2) (insert_jumps tool (jumps p))))
        (fill_chain-Agrees nat_place (nat_rules p) view k h)
        (λ k1 h1.
          and_then_holds (Agrees (filled p view))
            (Agrees (put_all (jumps p) (all_taken (filled p view))))
            (fill_chain tool input_place (input_rules p) k1)
            (λ k2. and_then (remove_jumps tool k2) (insert_jumps tool (jumps p)))
            (fill_chain-Agrees input_place (input_rules p)
              (put nat_place (map shown (nat_rules p)) view) k1 h1)
            (λ k2 h2.
              and_then_holds (Agrees (all_taken (filled p view)))
                (Agrees (put_all (jumps p) (all_taken (filled p view)))) (remove_jumps tool k2)
                (insert_jumps tool (jumps p)) (remove_jumps-Agrees (filled p view) k2 h2)
                (λ k3 h3. insert_jumps-Agrees (jumps p) (all_taken (filled p view)) k3 h3)))

  put_elsewhere :
      (p : Plan) (view : Place → List (List Text)) (d : Place)
      → All
          (λ c. same_place c d ≡ false)
          (nat_place ∷ input_place ∷ prerouting ∷ output ∷ input ∷ [])
      → put_all (jumps p) (all_taken (filled p view)) d ≡ view d
  unfolding jumps
  put_elsewhere p view d (a, (b, (c, (e, (f, _))))) = rw (a, b, c, e, f) refl

-- When `applyPlan` succeeds, and iptables does what it documents, then whatever the chains held before:
-- the two chains of the spreading hold the rules of the plan and no others, PREROUTING, OUTPUT and
-- INPUT begin with the plan's jump to them, no other rule there jumps to them, and every rule that did
-- not is still there in its order; no other chain has changed.
pub apply_plan-IsBuilt :
    {K : Type 0} (tool : Tool K) (shown : List Text → List Text)
    (rules : Place → K → List (List Text)) (p : Plan) (k : K)
    → IsIptables tool shown rules
    → (apply_plan tool p k).1 ≡ true
    → IsBuilt shown (λ d. rules d k) (λ d. rules d (apply_plan tool p k).0) p
unfolding text_eq jumps
apply_plan-IsBuilt tool shown rules p k laws done =
    let agrees : (d : Place)
        → rules d (apply_plan tool p k).0
          ≡ put_all tool shown rules laws (jumps p)
              (all_taken tool shown rules laws (filled tool shown rules laws p (λ d. rules d k)))
              d =
      apply_plan-Agrees tool shown rules laws p (λ d. rules d k) k (λ d. refl) done in
    record {
      spread = agrees nat_place;
      admitted = agrees input_place;
      outside = agrees prerouting;
      host = agrees output;
      entered = agrees input;
      elsewhere =
          λ d other. agrees d ∙ put_elsewhere tool shown rules laws p (λ c. rules c k) d other;
    }
