-- ===== src/Panel/Clients/Bulk.antt =====
-- internal/panel/api_client_ops.go: `handleClientBulk`, whose rounds come to one pass over the rows.
use hexplus_v.Base.{
  ℕ, suc, ◌≡◌, refl, ap, ◌∙◌, ◌⊎◌, inl, inr, Bool, true, false, ◌&&◌, not, Option, none, some, List,
  [], ◌∷◌, map, arith, ◌==◌, if◌then◌else◌, Bool-cases, keep, any,
}
use hexplus_v.Panel.Rows.{ClientRow}
use hexplus_v.Panel.Clients.{prolonged, unused, pos, eqb_ℤ, ℤ, extend_expiry, has_id, update_where}
use hexplus_v.Panel.Clients.Many.{
  BulkOp, BulkError, BulkError.no_client, error_at, keep_later, BulkOp.toggle, BulkOp.reset,
  BulkOp.extend, BulkOp.delete, set_enabled, bulk_one, bulk_all,
}

-- The request lists the row.
abbrev pub is_listed : List ℕ → ClientRow → Bool
is_listed ids c = any (λ id. c.id == id) ids

-- What a listed row becomes.
abbrev pub switched : ℕ → Bool → List ℕ → ClientRow → ClientRow
switched now v ids c = if is_listed ids c then set_enabled now v c else c

map-update_where :
    (now : ℕ) (v : Bool) (id : ℕ) (ids : List ℕ) (cs : List ClientRow)
    → map (switched now v ids) (update_where id (set_enabled now v) cs)
      ≡ map (switched now v (id ∷ ids)) cs
unfolding update_where
map-update_where now v id ids [] = refl
map-update_where now v id ids (c ∷ cs) = elim (Bool-cases (c.id == id)) [
  | inl e ↦ rw (e, map-update_where now v id ids cs) (again (is_listed ids c))
  | inr e ↦ rw (e, map-update_where now v id ids cs) refl
]
  where
    again :
        (b : Bool)
        → (if b then set_enabled now v c else set_enabled now v c)
            ∷ map (switched now v (id ∷ ids)) cs
          ≡ set_enabled now v c ∷ map (switched now v (id ∷ ids)) cs
    again true = refl
    again false = refl

keep-keep :
    (id : ℕ) (ids : List ℕ) (cs : List ClientRow)
    → keep (λ c. not (is_listed ids c)) (keep (λ c. not (has_id id c)) cs)
      ≡ keep (λ c. not (is_listed (id ∷ ids) c)) cs
keep-keep id ids [] = refl
keep-keep id ids (c ∷ cs) = elim (Bool-cases (c.id == id)) [
  | inl e ↦ rw (e, keep-keep id ids cs) refl
  | inr e ↦ rw (e, keep-keep id ids cs) refl
]

bulk_all-toggle :
    (now : ℕ) (clock : ℕ → ℕ) (v : Bool) (ids : List ℕ) (cs : List ClientRow)
    → bulk_all now clock (toggle (some v)) ids cs ≡ (map (switched now v ids) cs, ids, [])
unfolding bulk_all bulk_one
bulk_all-toggle now clock v [] cs = rw (same cs) refl
  where
    same : (xs : List ClientRow) → map (switched now v []) xs ≡ xs
    same [] = refl
    same (x ∷ xs) = rw (same xs) refl
bulk_all-toggle now clock v (id ∷ ids) cs =
    rw
      (
        bulk_all-toggle now (λ k. clock (suc k)) v ids (update_where id (set_enabled now v) cs),
        map-update_where now v id ids cs,
      )
      refl

bulk_all-delete :
    (now : ℕ) (clock : ℕ → ℕ) (ids : List ℕ) (cs : List ClientRow)
    → bulk_all now clock delete ids cs ≡ (keep (λ c. not (is_listed ids c)) cs, ids, [])
unfolding bulk_all bulk_one
bulk_all-delete now clock [] cs = rw (same cs) refl
  where
    same : (xs : List ClientRow) → keep (λ c. not (is_listed [] c)) xs ≡ xs
    same [] = refl
    same (x ∷ xs) = rw (same xs) refl
bulk_all-delete now clock (id ∷ ids) cs =
    rw
      (
        bulk_all-delete now (λ k. clock (suc k)) ids (keep (λ c. not (has_id id c)) cs),
        keep-keep id ids cs,
      )
      refl

-- A bulk request that enables, disables or deletes does to the rows what one pass over them does: the
-- listed rows are switched or deleted, the others stay as they are, however often and in whatever order
-- the ids are listed, and every id is reported as a success.
pub bulk_all-once :
    (now : ℕ) (clock : ℕ → ℕ) (v : Bool) (ids : List ℕ) (cs : List ClientRow)
    → (bulk_all now clock (toggle (some v)) ids cs ≡ (map (switched now v ids) cs, ids, []))
      × (bulk_all now clock delete ids cs ≡ (keep (λ c. not (is_listed ids c)) cs, ids, []))
bulk_all-once now clock v ids cs =
    (bulk_all-toggle now clock v ids cs, bulk_all-delete now clock ids cs)

-- A change of other columns leaves the ids.
any-update_where :
    (x id : ℕ) (f : ClientRow → ClientRow) (cs : List ClientRow)
    → ((c : ClientRow) → (f c).id ≡ c.id)
    → any (has_id x) (update_where id f cs) ≡ any (has_id x) cs
unfolding update_where
any-update_where x id f [] same = refl
any-update_where x id f (c ∷ cs) same = elim (Bool-cases (c.id == id)) [
  | inl e ↦ rw (e, same c, any-update_where x id f cs same) refl
  | inr e ↦ rw (e, any-update_where x id f cs same) refl
]

-- The ids are reported by whether there is such a row: the successes in a list, the failures in a map.
abbrev pub IsReported :
    List ℕ → List ClientRow → List ClientRow × List ℕ × List (ℕ × BulkError) → Type 0
IsReported ids cs (rows, good, failed) =
    (good ≡ keep (λ id. any (has_id id) cs) ids)
    × ((x : ℕ)
        → error_at x failed
          ≡ (if any (λ id. id == x) ids && not (any (has_id x) cs) then some no_client else none))

keep-same : (p q : ℕ → Bool) (ids : List ℕ) → ((id : ℕ) → p id ≡ q id) → keep p ids ≡ keep q ids
keep-same p q [] h = refl
keep-same p q (id ∷ ids) h = rw (h id, keep-same p q ids h) refl

-- An operation that changes the row with an id and fails where there is none.
abbrev Touches : (ℕ → ℕ → List ClientRow → List ClientRow × Option BulkError) → Type 0
Touches one =
    (clock id : ℕ) (cs : List ClientRow)
    → (any (has_id id) cs ≡ true
        → ((one clock id cs).1 ≡ none)
          × ((x : ℕ) → any (has_id x) (one clock id cs).0 ≡ any (has_id x) cs))
      × (any (has_id id) cs ≡ false → one clock id cs ≡ (cs, some no_client))

same_id : (id x : ℕ) → id == x ≡ true → x ≡ id
same_id id x h = ground arith

error_at-keep_later :
    (x id : ℕ) (e : BulkError) (failed : List (ℕ × BulkError))
    → (error_at id failed ≡ some e) ⊎ (error_at id failed ≡ none)
    → error_at x (keep_later id e (error_at id failed) failed)
      ≡ (if id == x then some e else error_at x failed)
unfolding error_at
error_at-keep_later x id e failed (inr h) = rw h refl
error_at-keep_later x id e failed (inl h) = elim (Bool-cases (id == x)) [
  | inl k ↦ rw (h, k) (ap (λ y. error_at y failed) (same_id id x k) ∙ h)
  | inr k ↦ rw (h, k) refl
]

-- A map of failures that is empty or has this error at an id.
absent_or :
    (b : Bool) (o : Option BulkError)
    → o ≡ (if b then some no_client else none)
    → (o ≡ some no_client) ⊎ (o ≡ none)
absent_or true o h = inl h
absent_or false o h = inr h

Touches-IsReported :
    (now : ℕ) (op : BulkOp)
    → Touches (λ clock. bulk_one now clock op)
    → (clock : ℕ → ℕ) (ids : List ℕ) (cs : List ClientRow)
    → IsReported ids cs (bulk_all now clock op ids cs)
unfolding bulk_all
Touches-IsReported now op touches clock [] cs = (refl, λ x. refl)
Touches-IsReported now op touches clock (id ∷ ids) cs =
    step (λ ds. Touches-IsReported now op touches (λ k. clock (suc k)) ids ds)
      (Bool-cases (any (has_id id) cs))
  where
    present : ℕ → Bool
    present x = any (has_id x) cs

    rest : List ClientRow → List ClientRow × List ℕ × List (ℕ × BulkError)
    rest ds = bulk_all now (λ k. clock (suc k)) op ids ds

    step :
        ((ds : List ClientRow) → IsReported ids ds (rest ds))
        → (any (has_id id) cs ≡ true) ⊎ (any (has_id id) cs ≡ false)
        → IsReported (id ∷ ids) cs (bulk_all now clock op (id ∷ ids) cs)
    step ih (inl e) =
        let ds = (bulk_one now (clock 0) op id cs).0 in
        let (fine, same) = (touches (clock 0) id cs).0 e in
        (
          rw (fine, e, (ih ds).0, keep-same (λ x. any (has_id x) ds) present ids same) refl,
          λ x. rw fine (
              (ih ds).1 x
              ∙ rw (same x) (elim (Bool-cases (id == x)) [
                | inl k ↦ rw (same_id id x k, e) (ground arith)
                | inr k ↦ rw k refl
              ])),
        )
    step ih (inr e) =
        let failed = (rest cs).2 in
        (
          rw ((touches (clock 0) id cs).1 e, e) (ih cs).0,
          λ x. rw ((touches (clock 0) id cs).1 e) (
              error_at-keep_later x id no_client failed (
                absent_or (any (λ y. y == id) ids && not (present id)) (error_at id failed)
                  ((ih cs).1 id))
              ∙ rw ((ih cs).1 x) (elim (Bool-cases (id == x)) [
                | inl k ↦ rw (same_id id x k, e) (ground arith)
                | inr k ↦ rw k refl
              ])),
        )

touched :
    (f : ℕ → ClientRow → ClientRow)
    → ((clock : ℕ) (c : ClientRow) → (f clock c).id ≡ c.id)
    → Touches (λ clock id cs.
      if any (has_id id) cs then (update_where id (f clock) cs, none) else (cs, some no_client))
touched f keeps clock id cs =
    (λ e. (rw e refl, λ x. rw e (any-update_where x id (f clock) cs (keeps clock))), λ e. rw e refl)

extend-Touches :
    (now : ℕ) (days : ℤ)
    → eqb_ℤ days (pos 0) ≡ false
    → Touches (λ clock. bulk_one now clock (extend days))
unfolding bulk_one extend_expiry
extend-Touches now days other clock id cs = (
  λ e. (
    rw (other, e) refl,
    λ x. rw (other, e) (any-update_where x id (prolonged clock days) cs (λ c. refl)),
  ),
  λ e. rw (other, e) refl,
)

-- A bulk reset, and a bulk extension by a number of days other than zero, report as successes the ids of
-- the request with a client, in its order, and as failures, in a map, exactly the ids of the request
-- without one, whatever the clock says in the rounds.
pub bulk_all-IsReported :
    (now : ℕ) (clock : ℕ → ℕ) (days : ℤ) (ids : List ℕ) (cs : List ClientRow)
    → eqb_ℤ days (pos 0) ≡ false
    → IsReported ids cs (bulk_all now clock reset ids cs)
      × IsReported ids cs (bulk_all now clock (extend days) ids cs)
unfolding bulk_one
bulk_all-IsReported now clock days ids cs other = (
  Touches-IsReported now reset (touched (λ at. unused now) (λ at c. refl)) clock ids cs,
  Touches-IsReported now (extend days) (extend-Touches now days other) clock ids cs,
)
