-- ===== src/Ovpninstance/Registry.antt =====
-- internal/ovpninstance/ovpninstance.go: the IDs of the registry.
use hexplus_v.Base.{
  ℕ, ◌+◌, ◌-◌, ◌≤◌, ◌≡◌, inl, inr, Bool, true, false, ◌&&◌, not, List, [], ◌∷◌, ◌++◌, arith, ◌==◌,
  if◌then◌else◌, Bool-cases, tally, All, All-append,
}
use hexplus_v.Base.Order.{sort, tally-sort, sort-All}
use hexplus_v.Ovpninstance.NextId.{holders, is_used-holders, next_id_lem}
use hexplus_v.Ovpninstance.{all_written, Instance, Writes, by_id, is_used, add, cut_out, remove}
use hexplus_v.Text.{Text, codes, text_eq}

-- A registry: every ID is 2 or more and held once at most.
abbrev pub IsRegistry : List Instance → Type 0
IsRegistry instances = All (λ i. 2 ≤ i.id) instances × ((id : ℕ) → holders id instances ≤ 1)

tally-snoc :
    (p : Instance → Bool) (xs : List Instance) (x : Instance)
    → tally p (xs ++ x ∷ []) ≡ tally p xs + (if p x then 1 else 0)
tally-snoc p [] x = ground arith
tally-snoc p (y ∷ xs) x = ground (arith, tally-snoc p xs x)

made-IsRegistry :
    (instances : List Instance) (made : Instance)
    → 2 ≤ made.id
    → is_used made.id instances ≡ false
    → IsRegistry instances
    → IsRegistry (sort by_id (instances ++ made ∷ []))
made-IsRegistry instances made low free (ids, once) = (
  sort-All by_id (λ i. 2 ≤ i.id) (instances ++ made ∷ [])
      (All-append (λ i. 2 ≤ i.id) instances (made ∷ []) ids (low, tt)),
  λ id.
      rw
        (
          tally-sort by_id (λ i. i.id == id) (instances ++ made ∷ []),
          tally-snoc (λ i. i.id == id) instances made,
        )
        (ground (arith, once id, once made.id, is_used-holders made.id instances, free)),
)

-- `add` keeps the registry well-formed: every ID is 2 or more, and no two instances have the same.
pub add-IsRegistry :
    (port : ℕ) (proto : Text) (worker : Bool) (w : Writes) (instances : List Instance)
    → IsRegistry instances
    → IsRegistry (add port proto worker w instances).0
unfolding add
add-IsRegistry port proto worker w instances ok =
    elim (Bool-cases (not (text_eq proto (codes "tcp")) && not (text_eq proto (codes "udp")))) [
      | inl other ↦ rw other ok
      | inr known ↦
          let (id, found, low, free, _) = next_id_lem instances in
          elim (Bool-cases (all_written worker w)) [
            | inl written ↦
                rw (add, known, found, written)
                  (made-IsRegistry instances
                    (record { id = id; port = port; proto = proto; worker = worker }) low free ok)
            | inr failed ↦ rw (add, known, found, failed) ok
          ]
    ]

cut_out-holders :
    (id k : ℕ) (instances : List Instance)
    → holders k (cut_out id instances)
      ≡ holders k instances - (if (k == id) && is_used id instances then 1 else 0)
unfolding cut_out is_used
cut_out-holders id k [] = ground arith
cut_out-holders id k (i ∷ instances) =
    ground (arith, cut_out-holders id k instances, is_used-holders id instances)

cut_out-less :
    (id k : ℕ) (instances : List Instance) → holders k (cut_out id instances) ≤ holders k instances
cut_out-less id k instances = ground (arith, cut_out-holders id k instances)

cut_out-All :
    (P : Instance → Type 0) (id : ℕ) (instances : List Instance)
    → All P instances
    → All P (cut_out id instances)
unfolding cut_out
cut_out-All P id [] _ = tt
cut_out-All P id (i ∷ instances) (h, hs) = elim (Bool-cases (i.id == id)) [
  | inl e ↦ rw e hs
  | inr e ↦ rw e (h, cut_out-All P id instances hs)
]

-- `Remove` keeps the registry well-formed.
pub remove-IsRegistry :
    (id : ℕ) (saved : Bool) (instances : List Instance)
    → IsRegistry instances
    → IsRegistry (remove id saved instances).0
unfolding remove
remove-IsRegistry id saved instances (ids, once) = elim (Bool-cases (is_used id instances)) [
  | inr absent ↦ rw absent (ids, once)
  | inl found ↦ elim (Bool-cases saved) [
    | inr kept ↦ rw (found, kept) (ids, once)
    | inl written ↦
        rw (found, written)
          (
            sort-All by_id (λ i. 2 ≤ i.id) (cut_out id instances)
                (cut_out-All (λ i. 2 ≤ i.id) id instances ids),
            λ k.
                rw (tally-sort by_id (λ i. i.id == k) (cut_out id instances))
                  (omega (arith, cut_out-less id k instances, once k)),
          )
  ]
]

-- A removal that is written frees the ID and no other.
pub remove-is_used :
    (id k : ℕ) (instances : List Instance)
    → IsRegistry instances
    → is_used k (remove id true instances).0 ≡ (is_used k instances && not (k == id))
unfolding remove
remove-is_used id k instances (ids, once) = elim (Bool-cases (is_used id instances)) [
  | inr absent ↦ rw absent (ground (arith, absent))
  | inl found ↦ rw found (
      ground (
        arith,
        found,
        once k,
        is_used-holders k instances,
        is_used-holders k (sort by_id (cut_out id instances)),
        cut_out-holders id k instances,
        tally-sort by_id (λ i. i.id == k) (cut_out id instances),
      ))
]

-- What the menus ask of the registry.
pub data Command : Type 0 where
  add_one : (port : ℕ) (proto : Text) (worker : Bool) (w : Writes) → Command
  remove_one : (id : ℕ) (saved : Bool) → Command

abbrev pub run_all : List Command → List Instance → List Instance
run_all [] instances = instances
run_all (add_one port proto worker w ∷ commands) instances =
    run_all commands (add port proto worker w instances).0
run_all (remove_one id saved ∷ commands) instances = run_all commands (remove id saved instances).0

-- Whatever is added and removed, and whichever writes fail, every ID stays 2 or more, and no two
-- instances have the same.
pub run_all-IsRegistry :
    (commands : List Command) (instances : List Instance)
    → IsRegistry instances
    → IsRegistry (run_all commands instances)
run_all-IsRegistry [] instances ok = ok
run_all-IsRegistry (add_one port proto worker w ∷ commands) instances ok =
    run_all-IsRegistry commands (add port proto worker w instances).0
      (add-IsRegistry port proto worker w instances ok)
run_all-IsRegistry (remove_one id saved ∷ commands) instances ok =
    run_all-IsRegistry commands (remove id saved instances).0
      (remove-IsRegistry id saved instances ok)
