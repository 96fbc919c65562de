-- ===== src/Panel/Clients/Many.antt =====
-- internal/panel/api_client_ops.go: one operation on many clients.
use hexplus_v.Base.{
  ℕ, suc, Bool, true, false, not, Option, none, some, List, [], ◌∷◌, ◌==◌, if◌then◌else◌, keep, any,
}
use hexplus_v.Base.Int.{ℤ, pos, eqb_ℤ}
use hexplus_v.Panel.Rows.{ClientRow, Tables}
use hexplus_v.Panel.Clients.{has_id, update_where, toggled, unused, extend_expiry}

-- `BulkOp` by its operation; any other text is unknown
pub data BulkOp : Type 0 where
  toggle : Option Bool → BulkOp
  reset : BulkOp
  extend : ℤ → BulkOp
  delete : BulkOp
  unknown : BulkOp

abbrev pub set_enabled : ℕ → Bool → ClientRow → ClientRow
set_enabled now v c = record c { enabled = v; updated_at = now }

-- Why a round of the loop failed.
pub data BulkError : Type 0 where
  no_client no_days unknown_op : BulkError

abbrev pub or_no_client : List ClientRow × Bool → List ClientRow × Option BulkError
or_no_client (cs, true) = (cs, none)
or_no_client (cs, false) = (cs, some no_client)

-- One round of the loop of `handleClientBulk`: the rows, and the error. `now` is read before the loop,
-- `clock` is what `extendClientExpiry` reads.
unfoldable pub bulk_one : ℕ → ℕ → BulkOp → ℕ → List ClientRow → List ClientRow × Option BulkError
unfolding update_where extend_expiry
bulk_one now clock (toggle (some v)) id cs = (update_where id (set_enabled now v) cs, none)
bulk_one now clock (toggle none) id cs = (update_where id (toggled now) cs, none)
bulk_one now clock reset id cs =
    if any (has_id id) cs then (update_where id (unused now) cs, none) else (cs, some no_client)
bulk_one now clock (extend days) id cs =
    if eqb_ℤ days (pos 0) then (cs, some no_days) else or_no_client (extend_expiry clock id days cs)
bulk_one now clock delete id cs = (keep (λ c. not (has_id id c)) cs, none)
bulk_one now clock unknown id cs = (cs, some unknown_op)

-- The error of an id in the map `failed`.
unfoldable pub error_at : ℕ → List (ℕ × BulkError) → Option BulkError
error_at id [] = none
error_at id ((j, e) ∷ failed) = if j == id then some e else error_at id failed

-- An error before those of the later rounds, which replace it.
abbrev pub keep_later :
    ℕ → BulkError → Option BulkError → List (ℕ × BulkError) → List (ℕ × BulkError)
keep_later id e none failed = (id, e) ∷ failed
keep_later id e (some f) failed = failed

-- The ids that succeeded, and the map of those that failed.
abbrev pub sorted_in :
    ℕ → Option BulkError → List ℕ × List (ℕ × BulkError) → List ℕ × List (ℕ × BulkError)
sorted_in id none (good, failed) = (id ∷ good, failed)
sorted_in id (some e) (good, failed) = (good, keep_later id e (error_at id failed) failed)

-- The loop; `clock` is the time in each of its rounds.
unfoldable pub bulk_all :
    ℕ → (ℕ → ℕ) → BulkOp → List ℕ → List ClientRow → List ClientRow × List ℕ × List (ℕ × BulkError)
unfolding bulk_one error_at
bulk_all now clock op [] cs = (cs, [], [])
bulk_all now clock op (id ∷ ids) cs =
    let one = bulk_one now (clock 0) op id cs in
    let rest = bulk_all now (λ k. clock (suc k)) op ids one.0 in
    let lists = sorted_in id one.1 (rest.1, rest.2) in (rest.0, lists.0, lists.1)

abbrev bulk_ids :
    ℕ → (ℕ → ℕ) → BulkOp → List ℕ → Tables → Option (Tables × List ℕ × List (ℕ × BulkError))
bulk_ids now clock op [] t = none
bulk_ids now clock op (id ∷ ids) t =
    let r = bulk_all now clock op (id ∷ ids) t.clients in
    some (record t { clients = r.0 }, r.1, r.2)

-- `handleClientBulk`: none is a bad request; an empty `op` is refused as well
unfoldable pub bulk :
    ℕ → (ℕ → ℕ) → Option BulkOp → List ℕ → Tables → Option (Tables × List ℕ × List (ℕ × BulkError))
unfolding bulk_all
bulk now clock none ids t = none
bulk now clock (some op) ids t = bulk_ids now clock op ids t
