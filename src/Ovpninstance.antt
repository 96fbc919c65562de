-- ===== src/Ovpninstance.antt =====
-- internal/ovpninstance/ovpninstance.go: the registry of extra OpenVPN instances. The registry file
-- is a list; the writes that `add` makes beside it are told by whether they succeed.
pub mod NextId
pub mod Registry
pub mod Nat
use hexplus_v.Base.{
  ℕ, zero, suc, Bool, true, false, ◌&&◌, ◌||◌, not, Option, none, some, List, [], ◌∷◌, ◌++◌, ltb,
  ◌==◌, if◌then◌else◌, length, keep, any,
}
use hexplus_v.Base.Order.{sort}
use hexplus_v.Text.{Text, codes, text_eq}

pub record Instance : Type 0 where
  pub id : ℕ
  pub port : ℕ
  pub proto : Text
  pub worker : Bool

-- `Extras` and `Workers`
unfoldable pub extras : List Instance → List Instance
extras instances = keep (λ i. not i.worker) instances

unfoldable pub workers : List Instance → List Instance
workers instances = keep (λ i. i.worker) instances

-- The order of the registry: `list[a].ID < list[b].ID`.
abbrev pub by_id : Instance → Instance → Bool
by_id a b = ltb a.id b.id

-- `used[id]`
unfoldable pub is_used : ℕ → List Instance → Bool
is_used id instances = any (λ i. i.id == id) instances

-- The loop of `nextID`, with fuel for its rounds.
unfoldable pub next_from : ℕ → ℕ → List Instance → Option ℕ
next_from zero id instances = none
next_from (suc fuel) id instances =
    let rest = next_from fuel (suc id) instances in if is_used id instances then rest else some id

-- `nextID`: one round more than there are instances is enough.
unfoldable pub next_id : List Instance → Option ℕ
unfolding next_from
next_id instances = next_from (suc (length instances)) 2 instances

-- Whether the writes of an `add` succeed: the configuration, `SetDuplicateCN`, `InjectConf`, the
-- unit and the registry; and whether the guard is on.
pub record Writes : Type 0 where
  pub conf : Bool
  pub duplicate_cn : Bool
  pub guarded : Bool
  pub injected : Bool
  pub unit : Bool
  pub registry : Bool

abbrev all_written : Bool → Writes → Bool
all_written worker w =
    w.conf
    && (not worker || w.duplicate_cn)
    && (not w.guarded || w.injected)
    && w.unit
    && w.registry

-- `add`: the registry afterwards, and the instance, `none` for an error.
unfoldable pub add :
    (port : ℕ) (proto : Text) (worker : Bool)
    → Writes
    → List Instance
    → List Instance × Option Instance
unfolding next_id
add port proto worker w instances =
    if not (text_eq proto (codes "tcp")) && not (text_eq proto (codes "udp"))
    then (instances, none)
    else elim (next_id instances) [
      | none ↦ (instances, none)
      | some id ↦
          let made : Instance = record { id = id; port = port; proto = proto; worker = worker } in
          if all_written worker w
          then (sort by_id (instances ++ made ∷ []), some made)
          else (instances, none)
    ]

-- The first instance with the ID is cut out.
unfoldable pub cut_out : ℕ → List Instance → List Instance
cut_out id [] = []
cut_out id (i ∷ instances) = if i.id == id then instances else i ∷ cut_out id instances

-- `Remove`: the registry afterwards, and whether the ID was found; `saved` is whether the registry
-- could be written.
unfoldable pub remove : (id : ℕ) (saved : Bool) → List Instance → List Instance × Bool
unfolding is_used cut_out
remove id saved instances =
    if not (is_used id instances)
    then (instances, false)
    else (if saved then sort by_id (cut_out id instances) else instances, true)
