-- ===== src/Ovpnguard/Decide.antt =====
-- internal/ovpnguard/decide.go: which sessions the guard ends. A Go map is an association list; its
-- iteration order does not show, since the names are sorted. `sort.Slice` is an insertion sort:
-- it leaves open only the order of sessions that agree in every key.
pub mod Preference
pub mod PerUser
pub mod Grouping
pub mod Verdicts
use hexplus_v.Base.{
  ℕ, Bool, true, false, ◌||◌, not, List, [], ◌∷◌, ◌++◌, Option, none, some, ltb, leb, ◌==◌,
  if◌then◌else◌, length, drop, map,
}
use hexplus_v.Base.Int.{ℤ, pos, negsuc, ltb_ℤ, eqb_ℤ}
use hexplus_v.Base.Order.{sort}
use hexplus_v.Text.{Text, codes, text_eq, text_lt}
use hexplus_v.Text.Number.{format}

pub record Session : Type 0 where
  pub instance_name : Text
  pub cid : ℕ
  pub name : Text
  pub since : ℤ
  pub real : Text
  pub rx_bytes : ℕ
  pub stale : Bool

pub record Kill : Type 0 where
  pub session : Session
  pub reason : Text

-- The two functions may be nil.
pub record Policy : Type 0 where
  pub limit : Option (Text → ℤ)
  pub refused : Option (Text → Text)

abbrev is_empty : Text → Bool
is_empty [] = true
is_empty (c ∷ s) = false

-- `byUser[s.Name] = append(byUser[s.Name], s)`
unfoldable pub append_to : Text → Session → List (Text × List Session) → List (Text × List Session)
append_to k s [] = (k, s ∷ []) ∷ []
append_to k s ((j, ss) ∷ m) =
    if text_eq j k then (j, ss ++ s ∷ []) ∷ m else (j, ss) ∷ append_to k s m

-- The first loop: the sessions that have a name, by name.
unfoldable pub group : List Session → List (Text × List Session) → List (Text × List Session)
unfolding append_to
group [] by_user = by_user
group (s ∷ ss) by_user = group ss (if is_empty s.name then by_user else append_to s.name s by_user)

-- `a == b` on `bool`
abbrev bool_eq : Bool → Bool → Bool
bool_eq true b = b
bool_eq false b = not b

-- The comparison of `sort.Slice`: live before stale, then newest first.
unfoldable pub before : Session → Session → Bool
before a b =
    if not (bool_eq a.stale b.stale)
    then not a.stale
    else if not (eqb_ℤ a.since b.since)
    then ltb_ℤ b.since a.since
    else if not (text_eq a.instance_name b.instance_name)
    then text_lt a.instance_name b.instance_name
    else ltb b.cid a.cid

-- `byUser[name]`
unfoldable pub sessions_of : Text → List (Text × List Session) → List Session
sessions_of k [] = []
sessions_of k ((j, ss) ∷ m) = if text_eq j k then ss else sessions_of k m

-- `"เกินจำนวนอุปกรณ์ " + n + "/" + limit`
unfoldable pub over_limit : ℕ → ℕ → Text
over_limit n limit = codes "เกินจำนวนอุปกรณ์ " ++ format n ++ codes "/" ++ format limit

abbrev pub kill_for : Text → List Session → List Kill
kill_for reason = map (λ s. record { session = s; reason = reason })

-- `limit <= 0 || len(ss) <= limit`, and otherwise the sessions behind the first `limit`
unfoldable pub cut_to : ℤ → List Session → List Kill
unfolding over_limit
cut_to (negsuc n) ss = []
cut_to (pos n) ss =
    if n == 0 || leb (length ss) n then [] else kill_for (over_limit (length ss) n) (drop n ss)

-- `p.Limit(name)`, 0 where there is no such function
abbrev pub limit_of : Policy → Text → ℤ
limit_of p name = elim p.limit [ none ↦ pos 0 | some f ↦ f name ]

-- `p.Refused(name)`, no reason where there is no such function
abbrev pub refusal_of : Policy → Text → Text
refusal_of p name = elim p.refused [ none ↦ [] | some f ↦ f name ]

-- The body of the second loop, once the sessions of a user are sorted.
unfoldable pub judge : Policy → Text → List Session → List Kill
unfolding cut_to
judge p name ss =
    let reason = refusal_of p name in
    if is_empty reason then cut_to (limit_of p name) ss else kill_for reason ss

unfoldable pub judge_all : Policy → List (Text × List Session) → List Text → List Kill
judge_all p by_user [] = []
judge_all p by_user (name ∷ names) =
    judge p name (sort before (sessions_of name by_user)) ++ judge_all p by_user names

abbrev pub names_of : List (Text × List Session) → List Text
names_of = map (λ e. e.0)

unfoldable pub decide : List Session → Policy → List Kill
unfolding judge_all group
decide sessions p =
    let by_user = group sessions [] in judge_all p by_user (sort text_lt (names_of by_user))
