-- ===== src/Panel/Clients/Requests/After.antt =====
-- internal/panel/api_clients.go, api_client_ops.go and enforcer.go: what requests make of one row.
use hexplus_v.Base.{
  ℕ, suc, ◌≡◌, refl, sym, ap, ◌∙◌, inl, inr, Bool, true, false, Option, none, some, List, [], ◌∷◌,
  ◌==◌, if◌then◌else◌, Bool-cases, any,
}
use hexplus_v.Base.Int.{ℤ, pos, eqb_ℤ}
use hexplus_v.Panel.Rows.{ClientRow, Tables}
use hexplus_v.Panel.Enforcer.Sweep.{swept}
use hexplus_v.Panel.Clients.{
  path_id, has_id, amended, update_client, toggled, unused, prolonged, extend_expiry,
}
use hexplus_v.Panel.Clients.Created.{is_success}
use hexplus_v.Panel.Clients.Many.{
  BulkOp, BulkOp.toggle, BulkOp.reset, BulkOp.extend, BulkOp.delete, BulkOp.unknown, BulkError,
  no_days, or_no_client, set_enabled, bulk_one, bulk_all,
}
use hexplus_v.Panel.Clients.Requests.Rows.{
  client_at, bind_row, at_row, client_at-update_where, client_at-keep, client_at_absent,
}
use hexplus_v.Panel.Clients.Requests.{
  Request, create, update, remove, toggle_enabled, reset_usage, extend_by, bulk_by, sweep, handle,
}

-- What one operation of a bulk request makes of the row that it names.
abbrev round_after : ℕ → ℕ → BulkOp → ClientRow → Option ClientRow
round_after now clock (toggle (some v)) c = some (set_enabled now v c)
round_after now clock (toggle none) c = some (toggled now c)
round_after now clock reset c = some (unused now c)
round_after now clock (extend days) c =
    some (if eqb_ℤ days (pos 0) then c else prolonged clock days c)
round_after now clock delete c = none
round_after now clock unknown c = some c

abbrev pub rounds_after : ℕ → (ℕ → ℕ) → BulkOp → ℕ → List ℕ → Option ClientRow → Option ClientRow
rounds_after now clock op x [] o = o
rounds_after now clock op x (id ∷ ids) o =
    rounds_after now (λ k. clock (suc k)) op x ids
      (bind_row (at_row id x (round_after now (clock 0) op)) o)

-- A change that a request makes of the row that its path names.
abbrev pub named_after :
    ℕ → Option ℕ → (ClientRow → Option ClientRow) → ClientRow → Option ClientRow
named_after x none f c = some c
named_after x (some id) f c = at_row id x f c

-- What a request makes of the row with the id `x`; whether an update is accepted is given.
abbrev pub row_after : Bool → ℕ → Request → ℕ → ClientRow → Option ClientRow
row_after accepted now (create d raw body) x c = some c
row_after accepted now (update raw none) x c = some c
row_after accepted now (update raw (some input)) x c =
    named_after x (path_id raw) (λ d. some (if accepted then amended input now d else d)) c
row_after accepted now (remove raw) x c = named_after x (path_id raw) (λ d. none) c
row_after accepted now (toggle_enabled raw) x c =
    named_after x (path_id raw) (λ d. some (toggled now d)) c
row_after accepted now (reset_usage raw) x c =
    named_after x (path_id raw) (λ d. some (unused now d)) c
row_after accepted now (extend_by raw none) x c = some c
row_after accepted now (extend_by raw (some days)) x c =
    named_after x (path_id raw) (λ d. some (if eqb_ℤ days (pos 0) then d else prolonged now days d))
      c
row_after accepted now (bulk_by clock none ids) x c = some c
row_after accepted now (bulk_by clock (some op) ids) x c = rounds_after now clock op x ids (some c)
row_after accepted now sweep x c = some (swept now c)

-- An update is answered with a success.
abbrev pub is_accepted : ℕ → Bool → Request → Tables → Bool
is_accepted now reload (update raw body) t = is_success (update_client reload now raw body t).1
is_accepted now reload _ t = true

-- The row with the id `x` through the requests.
abbrev pub followed : ℕ → List (ℕ × Bool × Request) → Tables → Option ClientRow → Option ClientRow
followed x [] t o = o
followed x ((now, reload, r) ∷ rs) t o =
    followed x rs (handle now reload r t)
      (bind_row (row_after (is_accepted now reload r t) now r x) o)

at_row-some : (id x : ℕ) (c : ClientRow) → at_row id x some c ≡ some c
at_row-some id x c = elim (Bool-cases (id == x)) [ inl e ↦ rw e refl | inr e ↦ rw e refl ]

pub unchanged : (x id : ℕ) (o : Option ClientRow) → o ≡ bind_row (at_row id x some) o
unchanged x id none = refl
unchanged x id (some c) = sym (at_row-some id x c)

-- An extension by no days changes nothing.
unless_zero :
    (x id : ℕ) (days : ℤ) (f : ClientRow → ClientRow) (cs : List ClientRow)
    (y : List ClientRow × Option BulkError)
    → client_at x y.0 ≡ bind_row (at_row id x (λ c. some (f c))) (client_at x cs)
    → client_at x (if eqb_ℤ days (pos 0) then (cs, some no_days) else y).0
      ≡ bind_row (at_row id x (λ c. some (if eqb_ℤ days (pos 0) then c else f c))) (client_at x cs)
unless_zero x id days f cs y h = go (eqb_ℤ days (pos 0))
  where
    go :
        (b : Bool)
        → client_at x (if b then (cs, some no_days) else y).0
          ≡ bind_row (at_row id x (λ c. some (if b then c else f c))) (client_at x cs)
    go true = unchanged x id (client_at x cs)
    go false = h

pub extend_expiry-row :
    (x clock id : ℕ) (days : ℤ) (cs : List ClientRow)
    → client_at x (extend_expiry clock id days cs).0
      ≡ bind_row (at_row id x (λ c. some (prolonged clock days c))) (client_at x cs)
unfolding extend_expiry
extend_expiry-row x clock id days cs = elim (Bool-cases (any (has_id id) cs)) [
  | inl e ↦ rw e (client_at-update_where x id (prolonged clock days) cs (λ c. refl))
  | inr e ↦ rw e (client_at_absent x id (λ c. some (prolonged clock days c)) cs e)
]

or_no_client-row :
    (x : ℕ) (r : List ClientRow × Bool) → client_at x (or_no_client r).0 ≡ client_at x r.0
or_no_client-row x (cs, true) = refl
or_no_client-row x (cs, false) = refl

bulk_one-row :
    (now clock x id : ℕ) (op : BulkOp) (cs : List ClientRow)
    → client_at x (bulk_one now clock op id cs).0
      ≡ bind_row (at_row id x (round_after now clock op)) (client_at x cs)
unfolding bulk_one extend_expiry
bulk_one-row now clock x id (toggle (some v)) cs =
    client_at-update_where x id (set_enabled now v) cs (λ c. refl)
bulk_one-row now clock x id (toggle none) cs =
    client_at-update_where x id (toggled now) cs (λ c. refl)
bulk_one-row now clock x id reset cs = elim (Bool-cases (any (has_id id) cs)) [
  | inl e ↦ rw e (client_at-update_where x id (unused now) cs (λ c. refl))
  | inr e ↦ rw e (client_at_absent x id (λ c. some (unused now c)) cs e)
]
bulk_one-row now clock x id (extend days) cs =
    unless_zero x id days (prolonged clock days) cs (or_no_client (extend_expiry clock id days cs))
      (or_no_client-row x (extend_expiry clock id days cs) ∙ extend_expiry-row x clock id days cs)
bulk_one-row now clock x id delete cs = client_at-keep x id cs
bulk_one-row now clock x id unknown cs = unchanged x id (client_at x cs)

pub bulk_all-row :
    (now : ℕ) (clock : ℕ → ℕ) (op : BulkOp) (x : ℕ) (ids : List ℕ) (cs : List ClientRow)
    → client_at x (bulk_all now clock op ids cs).0
      ≡ rounds_after now clock op x ids (client_at x cs)
unfolding bulk_all
bulk_all-row now clock op x [] cs = refl
bulk_all-row now clock op x (id ∷ ids) cs =
    bulk_all-row now (λ k. clock (suc k)) op x ids (bulk_one now (clock 0) op id cs).0
    ∙ ap (rounds_after now (λ k. clock (suc k)) op x ids) (bulk_one-row now (clock 0) x id op cs)

pub rounds_after-none :
    (now : ℕ) (clock : ℕ → ℕ) (op : BulkOp) (x : ℕ) (ids : List ℕ)
    → rounds_after now clock op x ids none ≡ none
rounds_after-none now clock op x [] = refl
rounds_after-none now clock op x (id ∷ ids) = rounds_after-none now (λ k. clock (suc k)) op x ids
