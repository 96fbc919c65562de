-- ===== src/User.antt =====
-- internal/user/user.go: the operations on the accounts of the VPN. `Store` has the state and the
-- tools of the host, and `Export` the client file.
pub mod Store
pub mod Export
pub mod Rollback
pub mod Made
pub mod Clean
pub mod Endpoint
pub mod Expiry
use hexplus_v.Base.{
  ℕ, zero, suc, ◌+◌, ◌-◌, ◌*◌, ◌/◌, ◌%◌, ◌^◌, Bool, true, false, Option, none, some, List, [], ◌∷◌,
  ltb, if◌then◌else◌,
}
use hexplus_v.Base.Int.{ℤ, pos, negsuc}
use hexplus_v.Maps.{insert, lookup, remove}
use hexplus_v.User.Export.{
  Tools, OvpnInput, build_ovpn, check_vpn_password, is_valid_name, resolve_endpoint,
}
use hexplus_v.User.Store.{
  Record, Db, Account, Host, Error, Result, M, ok, err, and_then, ◌>>=◌, ◌>>◌, return, call, guard,
  from, create_account, set_password, chage_expiry, delete_account, keep_cert, keep_key, drop_cert,
  drop_key, save_db, load, all, not_root, bad_name, empty_password, long_password, broken_password,
  account_exists, tool_failed, bad_endpoint, not_exported, no_db,
}
use hexplus_v.Text.{Text, text_eq}

-- `AddInput`
pub record AddInput : Type 0 where
  pub name : Text
  pub password : Text
  pub expires_in_days : ℤ
  pub limit : ℤ

-- A day in nanoseconds, and what `Truncate(24 * time.Hour)` keeps of a time.
abbrev pub day : ℕ
day = 86400 * 10 ^ 9

abbrev pub start_of_day : ℕ → ℕ
start_of_day time = time / day * day

-- A time a 64-bit duration later, the duration as its bits.
unfoldable pub later : ℕ → ℕ → ℕ
later now d = if ltb d (2 ^ 63) then now + d else now - (2 ^ 64 - d)

-- The expiry of `Add` and `UpdateExpiry`.
unfoldable pub expiry_of : ℕ → ℤ → Option ℕ
unfolding later
expiry_of now (negsuc n) = none
expiry_of now (pos zero) = none
expiry_of now (pos (suc n)) = some (start_of_day (later now (suc n * day % 2 ^ 64)))

-- `Truncate(time.Second)`
abbrev pub start_of_second : ℕ → ℕ
start_of_second time = time / 10 ^ 9 * 10 ^ 9

abbrev is_absent : {A : Type 0} → Option A → Bool
is_absent none = true
is_absent (some a) = false

-- `SystemUserExists` says no.
unfoldable pub absent : Tools → Text → M (Unit {0})
unfolding guard
absent t name h =
    (guard t.getent tool_failed >> guard (is_absent (lookup name h.accounts)) account_exists) h

-- What `Add` checks before it changes anything.
unfoldable pub add_checks : Tools → AddInput → OvpnInput → M OvpnInput
unfolding absent check_vpn_password resolve_endpoint
add_checks t i o = do
  guard t.root not_root
  guard (is_valid_name i.name) bad_name
  check_vpn_password i.password
  absent t i.name
  guard t.ca_loads not_exported
  resolve_endpoint o t.server_conf

unfoldable pub new_record : ℕ → AddInput → Record
unfolding expiry_of
new_record now i = record {
  name = i.name;
  created_at = start_of_second now;
  expires_at = expiry_of now i.expires_in_days;
  limit = i.limit;
}

-- The row of the new user, and what `Add` returns.
unfoldable pub store_record : Tools → ℕ → AddInput → Text → M (Record × Text)
unfolding call load from new_record
store_record t now i ovpn = do
  db ← load
  call t.saved tool_failed (save_db (insert i.name (new_record now i) db))
  return (new_record now i, ovpn)

-- What `Add` does behind the creation of the system account, which is undone when it fails.
unfoldable pub add_behind : Tools → ℕ → AddInput → OvpnInput → M (Record × Text)
unfolding call from build_ovpn store_record
add_behind t now i o = do
  call t.chpasswd tool_failed (set_password i.name i.password)
  pair ← from t.signed tool_failed
  call t.mkdir tool_failed (λ h. h)
  call t.cert_written tool_failed (keep_cert i.name pair.0)
  call t.key_written tool_failed (keep_key i.name pair.1)
  ovpn ← build_ovpn t (record o { username = i.name })
  store_record t now i ovpn

-- The deferred `DeleteSystemUser`, whose own error is dropped.
abbrev pub rollback {ℓ} : {A : Type ℓ} → Bool → Text → Host × Result A → Host × Result A
rollback deletes name (h, ok a) = (h, ok a)
rollback true name (h, err e) = (delete_account name h, err e)
rollback false name (h, err e) = (h, err e)

-- `Add` from the creation of the system account on.
unfoldable pub add_ready : Tools → ℕ → AddInput → OvpnInput → M (Record × Text)
unfolding call
add_ready t now i o = do
  call t.useradd tool_failed (create_account i.name (expiry_of now i.expires_in_days))
  λ h. rollback t.userdel i.name (add_behind t now i o h)

-- `Add`: the record and the client file
unfoldable pub add : Tools → ℕ → AddInput → OvpnInput → M (Record × Text)
add t now i o = do endpoint ← add_checks t i o; add_ready t now i endpoint

-- `Remove`
unfoldable pub remove_user : Tools → Text → M (Unit {0})
unfolding guard call load
remove_user t name = do
  guard t.root not_root
  call t.userdel tool_failed (delete_account name)
  call t.cert_removed tool_failed (drop_cert name)
  call t.key_removed tool_failed (drop_key name)
  db ← load
  call t.saved tool_failed (save_db (remove name db))

-- `List`
unfoldable pub list_users : M (List Record)
unfolding load
list_users = do db ← load; return (all db)

-- `Export`
unfoldable pub export_user : Tools → Text → OvpnInput → M Text
unfolding resolve_endpoint build_ovpn
export_user t name o = do
  i ← resolve_endpoint o t.server_conf
  build_ovpn t (record i { username = name })

-- The row of a user, a new one where the database has none.
unfoldable pub row_of : ℕ → Text → Option Record → Record
row_of now name none = record {
  name = name;
  created_at = start_of_second now;
  expires_at = none;
  limit = pos 0;
}
row_of now name (some r) = r

-- `UpdateExpiry`
unfoldable pub update_expiry : Tools → ℕ → Text → ℤ → M (Unit {0})
unfolding guard call load row_of
update_expiry t now name days = do
  guard t.root not_root
  call t.chage tool_failed (chage_expiry name (expiry_of now days))
  db ← load
  call t.saved tool_failed (
      save_db (
        insert name (record (row_of now name (lookup name db)) { expires_at = expiry_of now days })
          db))

-- `UpdateLimit`
unfoldable pub update_limit : Tools → ℕ → Text → ℤ → M (Unit {0})
unfolding call load row_of
update_limit t now name limit = do
  db ← load
  call t.saved tool_failed
      (save_db (insert name (record (row_of now name (lookup name db)) { limit = limit }) db))

-- `UpdatePassword`
unfoldable pub update_password : Tools → Text → Text → M (Unit {0})
unfolding guard check_vpn_password call
update_password t name password = do
  guard t.root not_root
  check_vpn_password password
  call t.chpasswd tool_failed (set_password name password)

-- `ExpiresAt` is set and before now.
unfoldable pub is_expired : ℕ → Option ℕ → Bool
is_expired now none = false
is_expired now (some e) = ltb e now

-- The loop of `CleanExpired`: the names removed so far, and whether a removal failed.
unfoldable pub clean_records : Tools → ℕ → List Record → M (List Text)
unfolding is_expired
clean_records t now [] = return []
clean_records t now (r ∷ rs) =
    if is_expired now r.expires_at
    then (do remove_user t r.name; names ← clean_records t now rs; return (r.name ∷ names))
    else clean_records t now rs

-- `CleanExpired`; the names removed before an error are left out.
unfoldable pub clean_expired : Tools → ℕ → M (List Text)
unfolding guard
clean_expired t now = do guard t.root not_root; rs ← list_users; clean_records t now rs
