-- ===== src/Ovpnspread/Apply.antt =====
-- internal/ovpnspread/ovpnspread.go: how `applyPlan` builds the rules. The command iptables is a
-- parameter: each of its operations gives the new state of the kernel, or nothing if it fails.
pub mod Built
use hexplus_v.Base.{Bool, true, false, ◌&&◌, Option, none, some, List, [], ◌∷◌, if◌then◌else◌, drop}
use hexplus_v.Ovpnspread.{
  Jump, Plan, input_chain, input_rules, jumps, jumps_to, nat_chain, nat_rules,
}
use hexplus_v.Text.{Text, codes, text_eq}

pub record Place : Type 0 where
  pub table : Text
  pub chain : Text

-- The operations `-S`, whose lines come as their fields, `-N`, `-F`, `-A`, `-I` at 1 and `-D`.
pub record Tool {ℓ} (K : Type ℓ) : Type ℓ where
  pub listed : Place → K → Option (List (List Text))
  pub new_chain : Place → K → Option K
  pub flushed : Place → K → Option K
  pub appended : Place → List Text → K → Option K
  pub inserted : Place → List Text → K → Option K
  pub deleted : Place → List Text → K → Option K

abbrev pub nat_place : Place
nat_place = record { table = codes "nat"; chain = nat_chain }

abbrev pub input_place : Place
input_place = record { table = codes "filter"; chain = input_chain }

abbrev pub prerouting : Place
prerouting = record { table = codes "nat"; chain = codes "PREROUTING" }

abbrev pub output : Place
output = record { table = codes "nat"; chain = codes "OUTPUT" }

abbrev pub input : Place
input = record { table = codes "filter"; chain = codes "INPUT" }

-- The test of `removeJumps` on the fields of a line.
unfoldable pub is_jump : Text → Text → List Text → Bool
unfolding jumps_to
is_jump chain target (a ∷ b ∷ fs) =
    text_eq a (codes "-A") && text_eq b chain && jumps_to (a ∷ b ∷ fs) target
is_jump chain target _ = false

module _ {ℓ} {K : Type ℓ} where
  -- A step that has failed leaves the kernel as it is.
  abbrev pub attempt : K → Option K → K × Bool
  attempt k none = (k, false)
  attempt k (some k') = (k', true)

  -- The next step, unless one has failed.
  abbrev pub and_then : K × Bool → (K → K × Bool) → K × Bool
  and_then (k, true) f = f k
  and_then (k, false) f = (k, false)

  -- The next step in any case, the failures kept.
  abbrev pub and_also : K × Bool → (K → K × Bool) → K × Bool
  and_also (k, ok) f = ((f k).0, ok && (f k).1)

  module _ (tool : Tool K) where
    abbrev pub ensured : Place → K → Option (List (List Text)) → K × Bool
    ensured c k none = attempt k (tool.new_chain c k)
    ensured c k (some lines) = (k, true)

    -- `chainExists`, and `-N` if it does not
    unfoldable pub ensure_chain : Place → K → K × Bool
    ensure_chain c k = ensured c k (tool.listed c k)

    unfoldable pub append_rules : Place → List (List Text) → K → K × Bool
    append_rules c [] k = (k, true)
    append_rules c (r ∷ rs) k = and_then (attempt k (tool.appended c r k)) (append_rules c rs)

    -- One round of the first loop of `applyPlan`.
    unfoldable pub fill_chain : Place → List (List Text) → K → K × Bool
    unfolding ensure_chain append_rules
    fill_chain c rs k =
        and_then (ensure_chain c k)
          (λ k1. and_then (attempt k1 (tool.flushed c k1)) (append_rules c rs))

    unfoldable pub delete_jumps : Place → Text → List (List Text) → K → K × Bool
    delete_jumps c target [] k = (k, true)
    delete_jumps c target (f ∷ fs) k =
        if is_jump c.chain target f
        then and_also (attempt k (tool.deleted c (drop 2 f) k)) (delete_jumps c target fs)
        else delete_jumps c target fs k

    abbrev pub removed_from : Place → Text → K → Option (List (List Text)) → K × Bool
    removed_from c target k none = (k, false)
    removed_from c target k (some lines) = delete_jumps c target lines k

    -- One round of the loop of `removeJumps`.
    unfoldable pub remove_jumps_at : Place → Text → K → K × Bool
    unfolding delete_jumps
    remove_jumps_at c target k = removed_from c target k (tool.listed c k)

    -- `removeJumps`
    unfoldable pub remove_jumps : K → K × Bool
    unfolding remove_jumps_at
    remove_jumps k =
        and_also (remove_jumps_at prerouting nat_chain k)
          (λ k1. and_also (remove_jumps_at output nat_chain k1) (remove_jumps_at input input_chain))

    unfoldable pub insert_jumps : List Jump → K → K × Bool
    insert_jumps [] k = (k, true)
    insert_jumps (j ∷ js) k =
        and_then (attempt k (tool.inserted (record { table = j.table; chain = j.chain }) j.spec k))
          (insert_jumps js)

    -- `applyPlan`
    unfoldable pub apply_plan : Plan → K → K × Bool
    unfolding fill_chain remove_jumps insert_jumps
    apply_plan p k = and_then (fill_chain nat_place (nat_rules p) k) (λ k1.
        and_then (fill_chain input_place (input_rules p) k1)
          (λ k2. and_then (remove_jumps k2) (insert_jumps (jumps p))))
