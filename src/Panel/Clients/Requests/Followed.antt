-- ===== src/Panel/Clients/Requests/Followed.antt =====
-- internal/panel/api_clients.go, api_client_ops.go and enforcer.go: a client's row through the requests
-- and sweeps.
use hexplus_v.Base.{
  ℕ, ◌+◌, ◌≤◌, ◌≡◌, refl, sym, ap, ◌∙◌, inl, inr, Bool, true, false, Option, none, some, List, [],
  ◌∷◌, ◌++◌, arith, if◌then◌else◌, Bool-cases, any,
}
use mathlib.Core.Option.{some-injective}
use hexplus_v.Base.Int.{ℤ, pos, eqb_ℤ}
use hexplus_v.Panel.Rows.{ClientRow, InboundRow, Tables}
use hexplus_v.Panel.Enforcer.Sweep.{swept, is_flipped, enforce_once-swept}
use hexplus_v.Text.{Text}
use hexplus_v.Xray.Transport.{is_empty}
use hexplus_v.Panel.Clients.{
  ClientInput, Reply, Reply.bad_request, path_id, has_id, is_unique, constrained, update_where,
  amended, updated, update_at, update_client, delete_at, toggled, toggle_at, unused, reset_at,
  prolonged, extend_expiry, extend_days, extend_at,
}
use hexplus_v.Panel.Clients.Create.{
  Draws, fill_identity, new_client, inserted, create_token, create_filled, create_for, create_at,
  create_client, inbound_at,
}
use hexplus_v.Panel.Clients.Created.{is_success}
use hexplus_v.Panel.Clients.Many.{BulkOp, bulk}
use hexplus_v.Panel.Clients.Requests.Rows.{
  client_at, bind_row, bind_row-some, at_row, client_at-update_where, client_at-keep, client_at-map,
  client_at-append, client_at_absent,
}
use hexplus_v.Panel.Clients.Requests.{
  Request, create, update, remove, toggle_enabled, reset_usage, extend_by, bulk_by, sweep,
  tables_or, handle, handle_all,
}
use hexplus_v.Panel.Clients.Requests.After.{
  rounds_after, named_after, row_after, is_accepted, followed, unchanged, extend_expiry-row,
  bulk_all-row, rounds_after-none,
}

-- What a handler keeps of the row: it is what the request makes of it, and no id is taken back.
abbrev Follows : ℕ → Tables → (ClientRow → Option ClientRow) → Tables → Type 0
Follows x t f t' =
    (client_at x t'.clients ≡ bind_row f (client_at x t.clients)) × (t.last_client ≤ t'.last_client)

same_tables : (x : ℕ) (t : Tables) → Follows x t some t
same_tables x t = (sym (bind_row-some (client_at x t.clients)), ground arith)

update_rows :
    (x : ℕ) (t : Tables) (f : ClientRow → Option ClientRow) (cs : List ClientRow)
    → client_at x cs ≡ bind_row f (client_at x t.clients)
    → Follows x t f (record t { clients = cs })
update_rows x t f cs h = (h, ground arith)

-- The request in which no row is named, or another one is.
named_none : (x : ℕ) (id : ℕ) (t : Tables) → Follows x t (at_row id x some) t
named_none x id t = (unchanged x id (client_at x t.clients), ground arith)

-- A handler that looks for the row first.
if-Follows :
    (x id : ℕ) (t : Tables) (f : ClientRow → ClientRow) (y z : Reply)
    → ((c : ClientRow) → (f c).id ≡ c.id)
    → Follows x t
        (at_row id x (λ c. some (f c)))
        (if◌then◌else◌ {A = Tables × Reply}
          (any (has_id id) t.clients)
          (record t { clients = update_where id f t.clients }, y)
          (t, z)).0
if-Follows x id t f y z same = elim (Bool-cases (any (has_id id) t.clients)) [
  | inl e ↦ rw e (client_at-update_where x id f t.clients same, ground arith)
  | inr e ↦ rw e (client_at_absent x id (λ c. some (f c)) t.clients e, ground arith)
]

toggle_at-Follows :
    (x : ℕ) (reload : Bool) (now : ℕ) (o : Option ℕ) (t : Tables)
    → Follows x t (named_after x o (λ c. some (toggled now c))) (toggle_at reload now o t).0
toggle_at-Follows x reload now none t = same_tables x t
toggle_at-Follows x reload now (some id) t = if-Follows x id t (toggled now) _ _ (λ c. refl)

reset_at-Follows :
    (x now : ℕ) (o : Option ℕ) (t : Tables)
    → Follows x t (named_after x o (λ c. some (unused now c))) (reset_at now o t).0
reset_at-Follows x now none t = same_tables x t
reset_at-Follows x now (some id) t = if-Follows x id t (unused now) _ _ (λ c. refl)

delete_at-Follows :
    (x : ℕ) (reload : Bool) (o : Option ℕ) (t : Tables)
    → Follows x t (named_after x o (λ c. none)) (delete_at reload o t).0
delete_at-Follows x reload none t = same_tables x t
delete_at-Follows x reload (some id) t = (client_at-keep x id t.clients, ground arith)

extend_expiry_lost :
    (now id : ℕ) (days : ℤ) (cs : List ClientRow)
    → (extend_expiry now id days cs).1 ≡ false
    → (extend_expiry now id days cs).0 ≡ cs
unfolding extend_expiry
extend_expiry_lost now id days cs h = elim (Bool-cases (any (has_id id) cs)) [
  | inl e ↦ absurd (ground (arith, rw e at h))
  | inr e ↦ rw e refl
]

constrained_same : (rows cs : List ClientRow) → constrained rows ≡ some cs → rows ≡ cs
unfolding constrained
constrained_same rows cs h = elim (Bool-cases (is_unique rows)) [
  | inl e ↦ some-injective rows cs (rw e at h)
  | inr e ↦ absurd (ground (arith, rw e at h))
]

extend_at-Follows :
    (x : ℕ) (reload : Bool) (now : ℕ) (days : ℤ) (o : Option ℕ) (t : Tables)
    → Follows x t
        (named_after x o (λ c. some (if eqb_ℤ days (pos 0) then c else prolonged now days c)))
        (extend_at reload now o (some days) t).0
extend_at-Follows x reload now days none t = same_tables x t
extend_at-Follows x reload now days (some id) t = go (eqb_ℤ days (pos 0))
  where
    done_or :
        (r : List ClientRow × Bool)
        → client_at x r.0
          ≡ bind_row (at_row id x (λ c. some (prolonged now days c))) (client_at x t.clients)
        → (r.1 ≡ false → r.0 ≡ t.clients)
        → Follows x t
            (at_row id x (λ c. some (prolonged now days c)))
            (extend_days reload now id days t r).0
    done_or (cs, true) h same = (h, ground arith)
    done_or (cs, false) h same = (ap (client_at x) (sym (same refl)) ∙ h, ground arith)

    go :
        (b : Bool)
        → Follows x t
            (at_row id x (λ c. some (if b then c else prolonged now days c)))
            (if◌then◌else◌ {A = Tables × Reply} b
              (t, bad_request)
              (extend_days reload now id days t (extend_expiry now id days t.clients))).0
    go true = named_none x id t
    go false =
        done_or (extend_expiry now id days t.clients) (extend_expiry-row x now id days t.clients)
          (extend_expiry_lost now id days t.clients)

update_at-Follows :
    (x : ℕ) (reload : Bool) (now : ℕ) (input : ClientInput) (o : Option ℕ) (t : Tables)
    → Follows x t
        (named_after x o (λ c. some (
          if is_success (update_at reload now o (some input) t).1 then amended input now c else c)))
        (update_at reload now o (some input) t).0
update_at-Follows x reload now input none t = same_tables x t
update_at-Follows x reload now input (some id) t =
    go reload (constrained (update_where id (amended input now) t.clients)) (λ cs e.
      ap (client_at x) (sym (constrained_same (update_where id (amended input now) t.clients) cs e))
      ∙ client_at-update_where x id (amended input now) t.clients (λ c. refl))
  where
    go :
        (loaded : Bool) (o : Option (List ClientRow))
        → ((cs : List ClientRow)
            → o ≡ some cs
            → client_at x cs
              ≡ bind_row (at_row id x (λ c. some (amended input now c))) (client_at x t.clients))
        → Follows x t
            (at_row id x
              (λ c. some (if is_success (updated loaded id t o).1 then amended input now c else c)))
            (updated loaded id t o).0
    go true none h = named_none x id t
    go false none h = named_none x id t
    go true (some cs) h = (h cs refl, ground arith)
    go false (some cs) h = (h cs refl, ground arith)

create_client-Follows :
    (x : ℕ) (d : Draws) (reload : Bool) (now : ℕ) (raw : Text) (body : Option ClientInput)
    (t : Tables)
    → x ≤ t.last_client
    → Follows x t some (create_client d reload now raw body t).0
unfolding create_client
create_client-Follows x d reload now raw body t given = at (path_id raw)
  where
    stored :
        (c : ClientRow) (o : Option (List ClientRow))
        → c.id ≡ t.last_client + 1
        → ((cs : List ClientRow) → o ≡ some cs → t.clients ++ c ∷ [] ≡ cs)
        → Follows x t some (inserted reload t o).0
    stored c none new h = same_tables x t
    stored c (some cs) new h = (
      ap (client_at x) (sym (h cs refl))
          ∙ client_at-append x c t.clients (ground (arith, new, given))
          ∙ sym (bind_row-some (client_at x t.clients)),
      ground arith,
    )

    token :
        (inbound : ℕ) (p : Text) (o : Option Text) (input : ClientInput)
        → Follows x t some (create_token reload now inbound p o input t).0
    token inbound p none input = same_tables x t
    token inbound p (some s) input =
        let c = new_client (t.last_client + 1) inbound p s input now in
        stored c (constrained (t.clients ++ c ∷ [])) refl (constrained_same (t.clients ++ c ∷ []))

    ready :
        (inbound : ℕ) (p : Text) (o : Option ClientInput)
        → Follows x t some (create_filled d reload now inbound p o t).0
    ready inbound p none = same_tables x t
    ready inbound p (some input) = token inbound p d.token input

    for :
        (i : Option InboundRow) (o : Option ClientInput)
        → Follows x t some (create_for d reload now i o t).0
    for none o = same_tables x t
    for (some i) none = same_tables x t
    for (some i) (some input) = elim (Bool-cases (is_empty input.email)) [
      | inl e ↦ rw e (same_tables x t)
      | inr e ↦ rw e (ready i.id i.protocol (fill_identity d input i.protocol))
    ]

    at : (o : Option ℕ) → Follows x t some (create_at d reload now o body t).0
    at none = same_tables x t
    at (some inbound) = for (inbound_at inbound t.inbounds) body

rounds-bind_row :
    (now : ℕ) (clock : ℕ → ℕ) (op : BulkOp) (x : ℕ) (ids : List ℕ) (o : Option ClientRow)
    → rounds_after now clock op x ids o ≡ bind_row (λ c. rounds_after now clock op x ids (some c)) o
rounds-bind_row now clock op x ids none = rounds_after-none now clock op x ids
rounds-bind_row now clock op x ids (some c) = refl

bulk-Follows :
    (x now : ℕ) (clock : ℕ → ℕ) (op : BulkOp) (ids : List ℕ) (t : Tables)
    → Follows x t
        (λ c. rounds_after now clock op x ids (some c))
        (tables_or t (bulk now clock (some op) ids t))
unfolding bulk
bulk-Follows x now clock op [] t = same_tables x t
bulk-Follows x now clock op (id ∷ ids) t = (
  bulk_all-row now clock op x (id ∷ ids) t.clients
      ∙ rounds-bind_row now clock op x (id ∷ ids) (client_at x t.clients),
  ground arith,
)

swept-id : (now : ℕ) (c : ClientRow) → (swept now c).id ≡ c.id
swept-id now c = elim (Bool-cases (is_flipped now c)) [ inl e ↦ rw e refl | inr e ↦ rw e refl ]

update_at_broken :
    (x : ℕ) (reload : Bool) (now : ℕ) (o : Option ℕ) (t : Tables)
    → Follows x t some (update_at reload now o none t).0
update_at_broken x reload now none t = same_tables x t
update_at_broken x reload now (some id) t = same_tables x t

extend_at_broken :
    (x : ℕ) (reload : Bool) (now : ℕ) (o : Option ℕ) (t : Tables)
    → Follows x t some (extend_at reload now o none t).0
extend_at_broken x reload now none t = same_tables x t
extend_at_broken x reload now (some id) t = same_tables x t

pub handle-Follows :
    (now : ℕ) (reload : Bool) (r : Request) (x : ℕ) (t : Tables)
    → x ≤ t.last_client
    → Follows x t (row_after (is_accepted now reload r t) now r x) (handle now reload r t)
unfolding handle update_client
handle-Follows now reload (create d raw body) x t given =
    create_client-Follows x d reload now raw body t given
handle-Follows now reload (update raw none) x t given =
    update_at_broken x reload now (path_id raw) t
handle-Follows now reload (update raw (some input)) x t given =
    update_at-Follows x reload now input (path_id raw) t
handle-Follows now reload (remove raw) x t given = delete_at-Follows x reload (path_id raw) t
handle-Follows now reload (toggle_enabled raw) x t given =
    toggle_at-Follows x reload now (path_id raw) t
handle-Follows now reload (reset_usage raw) x t given = reset_at-Follows x now (path_id raw) t
handle-Follows now reload (extend_by raw none) x t given =
    extend_at_broken x reload now (path_id raw) t
handle-Follows now reload (extend_by raw (some days)) x t given =
    extend_at-Follows x reload now days (path_id raw) t
handle-Follows now reload (bulk_by clock none ids) x t given = same_tables x t
handle-Follows now reload (bulk_by clock (some op) ids) x t given =
    bulk-Follows x now clock op ids t
handle-Follows now reload sweep x t given = (
  ap (client_at x) (enforce_once-swept now t.clients).0
      ∙ client_at-map x (swept now) t.clients (swept-id now),
  ground arith,
)

-- Through any sequence of requests of the clients' API and sweeps of the enforcer, the row of a client is
-- what the requests that name its id and the sweeps make of it, one after the other; requests that name
-- other clients, or create them, leave it as it is, and once deleted it stays away, since no id up to the
-- last one given is used again. Whether an update is accepted is read off its reply.
pub handle_all-followed :
    (rs : List (ℕ × Bool × Request)) (x : ℕ) (t : Tables)
    → x ≤ t.last_client
    → client_at x (handle_all rs t).clients ≡ followed x rs t (client_at x t.clients)
unfolding handle_all
handle_all-followed [] x t given = refl
handle_all-followed ((now, reload, r) ∷ rs) x t given =
    let (row, later) = handle-Follows now reload r x t given in
    handle_all-followed rs x (handle now reload r t) (ground (arith, given, later))
    ∙ ap (followed x rs (handle now reload r t)) row
