-- ===== src/Panel/Clients.antt =====
-- internal/panel/api_clients.go and api_client_ops.go: the operations on the table `clients`. The random
-- credentials and the outcome of the reload come in as arguments; of a failing database only the broken
-- constraints are modelled.
pub mod Create
pub mod Many
pub mod Created
pub mod Requests
pub mod Extended
pub mod Bulk
use hexplus_v.Base.{
  ℕ, suc, Bool, true, false, ◌&&◌, not, Option, none, some, List, [], ◌∷◌, ◌==◌, if◌then◌else◌,
  keep, any,
}
use hexplus_v.Base.Int.{ℤ, pos, ltb_ℤ, eqb_ℤ, ◌+ℤ◌, times, wrap64}
use hexplus_v.Panel.Rows.{ClientRow, Tables}
use hexplus_v.Text.{Text, text_eq}
use hexplus_v.Text.Number.{parse_int, ok_value}

pub record ClientInput : Type 0 where
  pub email : Text
  pub uuid : Text
  pub password : Text
  pub key : Text
  pub quota_bytes : ℤ
  pub ip_limit : ℤ
  pub expires_at : ℤ
  pub enabled : Option Bool

pub data Reply : Type 0 where
  bad_request not_found server_error : Reply
  created accepted done : ℕ → Reply

abbrev positive : Option ℤ → Option ℕ
positive (some (pos (suc n))) = some (suc n)
positive _ = none

-- `pathID`
unfoldable pub path_id : Text → Option ℕ
path_id raw = positive (ok_value (parse_int raw))

abbrev pub enabled_or_on : Option Bool → Bool
enabled_or_on (some false) = false
enabled_or_on _ = true

abbrev pub has_id : ℕ → ClientRow → Bool
has_id cid c = c.id == cid

-- Two rows that `UNIQUE(inbound_id, email)` does not let stand together.
abbrev same_name : ClientRow → ClientRow → Bool
same_name c d = c.inbound_id == d.inbound_id && text_eq c.email d.email

unfoldable pub is_unique : List ClientRow → Bool
is_unique [] = true
is_unique (c ∷ cs) = not (any (same_name c) cs) && is_unique cs

-- What the database makes of the rows that a statement leads to: none is the error of the constraint.
unfoldable pub constrained : List ClientRow → Option (List ClientRow)
unfolding is_unique
constrained cs = if is_unique cs then some cs else none

abbrev pub reloaded : Bool → ℕ → Reply → Reply
reloaded true id reply = reply
reloaded false id reply = accepted id

-- `UPDATE clients SET … WHERE id = ?`
unfoldable pub update_where : ℕ → (ClientRow → ClientRow) → List ClientRow → List ClientRow
update_where cid f [] = []
update_where cid f (c ∷ cs) =
    if c.id == cid then f c ∷ update_where cid f cs else c ∷ update_where cid f cs

abbrev pub amended : ClientInput → ℕ → ClientRow → ClientRow
amended input now c = record c {
  email = input.email;
  uuid = input.uuid;
  password = input.password;
  shared_key = input.key;
  quota_bytes = input.quota_bytes;
  ip_limit = input.ip_limit;
  expires_at = input.expires_at;
  enabled = enabled_or_on input.enabled;
  updated_at = now;
}

abbrev pub updated : Bool → ℕ → Tables → Option (List ClientRow) → Tables × Reply
updated reload cid t none = (t, bad_request)
updated reload cid t (some cs) = (record t { clients = cs }, reloaded reload cid (done cid))

abbrev pub update_at : Bool → ℕ → Option ℕ → Option ClientInput → Tables → Tables × Reply
update_at reload now none body t = (t, bad_request)
update_at reload now (some cid) none t = (t, bad_request)
update_at reload now (some cid) (some input) t =
    updated reload cid t (constrained (update_where cid (amended input now) t.clients))

-- `handleClientUpdate`
unfoldable pub update_client : Bool → ℕ → Text → Option ClientInput → Tables → Tables × Reply
unfolding path_id update_where constrained
update_client reload now raw body t = update_at reload now (path_id raw) body t

abbrev pub delete_at : Bool → Option ℕ → Tables → Tables × Reply
delete_at reload none t = (t, bad_request)
delete_at reload (some cid) t = (
  record t { clients = keep (λ c. not (has_id cid c)) t.clients },
  reloaded reload cid (done cid),
)

-- `handleClientDelete`
unfoldable pub delete_client : Bool → Text → Tables → Tables × Reply
unfolding path_id
delete_client reload raw t = delete_at reload (path_id raw) t

abbrev pub toggled : ℕ → ClientRow → ClientRow
toggled now c = record c { enabled = not c.enabled; updated_at = now }

abbrev pub toggle_at : Bool → ℕ → Option ℕ → Tables → Tables × Reply
toggle_at reload now none t = (t, bad_request)
toggle_at reload now (some cid) t =
    if any (has_id cid) t.clients
    then (
      record t { clients = update_where cid (toggled now) t.clients },
      reloaded reload cid (done cid),
    )
    else (t, not_found)

-- `handleClientToggle`
unfoldable pub toggle_client : Bool → ℕ → Text → Tables → Tables × Reply
unfolding path_id update_where
toggle_client reload now raw t = toggle_at reload now (path_id raw) t

abbrev pub unused : ℕ → ClientRow → ClientRow
unused now c = record c { used_bytes = 0; updated_at = now }

abbrev pub reset_at : ℕ → Option ℕ → Tables → Tables × Reply
reset_at now none t = (t, bad_request)
reset_at now (some cid) t =
    if any (has_id cid) t.clients
    then (record t { clients = update_where cid (unused now) t.clients }, done cid)
    else (t, not_found)

-- `handleClientReset`
unfoldable pub reset_client : ℕ → Text → Tables → Tables × Reply
unfolding path_id update_where
reset_client now raw t = reset_at now (path_id raw) t

-- The later one of two times.
abbrev pub later_of : ℤ → ℤ → ℤ
later_of current now = if ltb_ℤ current now then now else current

-- `base + int64(days)*86400`, as an `int64`
unfoldable pub extended : ℕ → ℤ → ℤ → ℤ
extended now days current = wrap64 (later_of current (pos now) +ℤ wrap64 (times 86400 days))

abbrev pub prolonged : ℕ → ℤ → ClientRow → ClientRow
prolonged now days c = record c { expires_at = extended now days c.expires_at; updated_at = now }

-- `extendClientExpiry`: the rows, and whether there was one
unfoldable pub extend_expiry : ℕ → ℕ → ℤ → List ClientRow → List ClientRow × Bool
unfolding update_where extended
extend_expiry now cid days cs =
    if any (has_id cid) cs then (update_where cid (prolonged now days) cs, true) else (cs, false)

abbrev pub extend_days : Bool → ℕ → ℕ → ℤ → Tables → List ClientRow × Bool → Tables × Reply
extend_days reload now cid days t (cs, true) =
    (record t { clients = cs }, reloaded reload cid (done cid))
extend_days reload now cid days t (cs, false) = (t, server_error)

abbrev pub extend_at : Bool → ℕ → Option ℕ → Option ℤ → Tables → Tables × Reply
extend_at reload now none days t = (t, bad_request)
extend_at reload now (some cid) none t = (t, bad_request)
extend_at reload now (some cid) (some days) t =
    if eqb_ℤ days (pos 0)
    then (t, bad_request)
    else extend_days reload now cid days t (extend_expiry now cid days t.clients)

-- `handleClientExtend`; `days` is what `strconv.Atoi` makes of the parameter
unfoldable pub extend_client : Bool → ℕ → Text → Option ℤ → Tables → Tables × Reply
unfolding path_id extend_expiry
extend_client reload now raw days t = extend_at reload now (path_id raw) days t
