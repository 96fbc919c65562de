-- ===== src/User/Clean.antt =====
-- internal/user/user.go: `CleanExpired` removes the expired users and no other.
use hexplus_v.Base.{
  ℕ, ◌≡◌, refl, ap, ◌∙◌, inl, inr, Bool, true, false, ◌&&◌, Option, none, some, List, [], ◌∷◌,
  arith, ltb, if◌then◌else◌, Bool-cases, any,
}
use hexplus_v.Base.Order.{any-sort}
use hexplus_v.Maps.{lookup, remove, lookup-remove}
use hexplus_v.Text.{Text, text_eq, text_eq_iff, text_mem}
use hexplus_v.User.{Tools, clean_expired, clean_records, is_expired, list_users, remove_user}
use hexplus_v.User.Export.{Tools}
use hexplus_v.User.Made.{row_in}
use hexplus_v.User.Store.{
  delete_account, Db, Host, Record, all, call, from, guard, load, name_lt, ok, records,
}

-- Every tool that a removal calls works.
pub record Removes (t : Tools) : Type 0 where
  pub as_root : t.root ≡ true
  pub deletes : t.userdel ≡ true
  pub removes_cert : t.cert_removed ≡ true
  pub removes_key : t.key_removed ≡ true
  pub saves : t.saved ≡ true

-- Every row stands once, under the name that it holds.
abbrev pub IsIndexed : Db → Type 0
IsIndexed [] = Unit
IsIndexed ((k, r) ∷ db) = (k ≡ r.name) × ((lookup k db ≡ none) × IsIndexed db)

remove_user_db :
    (t : Tools) (name : Text) (h : Host) (db : Db)
    → Removes t
    → h.db ≡ some db
    → ((remove_user t name h).1 ≡ ok tt) × ((remove_user t name h).0.db ≡ some (remove name db))
unfolding remove_user call guard from load delete_account
remove_user_db t name h db works e = ground arith

-- An expiry is set and before now.
abbrev pub is_past : ℕ → Option ℕ → Bool
is_past now none = false
is_past now (some e) = ltb e now

is_expired-past : (now : ℕ) (o : Option ℕ) → is_expired now o ≡ is_past now o
unfolding is_expired
is_expired-past now none = refl
is_expired-past now (some e) = refl

abbrev pub expired_names : ℕ → List Record → List Text
expired_names now [] = []
expired_names now (r ∷ rs) =
    if is_past now r.expires_at then r.name ∷ expired_names now rs else expired_names now rs

remove_all : List Text → Db → Db
remove_all [] db = db
remove_all (n ∷ ns) db = remove_all ns (remove n db)

lookup-remove_all :
    (j : Text) (ns : List Text) (db : Db)
    → lookup j (remove_all ns db) ≡ (if text_mem j ns then none else lookup j db)
unfolding remove_all text_mem
lookup-remove_all j [] db = refl
lookup-remove_all j (n ∷ ns) db = ground (
  arith,
  lookup-remove_all j ns (remove n db),
  lookup-remove n j db,
  text_eq_iff j n,
  text_eq_iff n j,
)

clean_records_db :
    (t : Tools) (now : ℕ) (rs : List Record) (h : Host) (db : Db)
    → Removes t
    → h.db ≡ some db
    → ((clean_records t now rs h).1 ≡ ok (expired_names now rs))
      × ((clean_records t now rs h).0.db ≡ some (remove_all (expired_names now rs) db))
unfolding clean_records remove_all
clean_records_db t now [] h db works e = (refl, e)
clean_records_db t now (r ∷ rs) h db works e =
    let removed = remove_user_db t r.name h db works e in
    let rest =
      clean_records_db t now rs (remove_user t r.name h).0 (remove r.name db) works (removed.1) in
    elim (Bool-cases (is_past now r.expires_at)) [
      | inl old ↦ rw (is_expired-past now r.expires_at, old) (ground (arith, removed, rest))
      | inr young ↦
          rw (is_expired-past now r.expires_at, young) (clean_records_db t now rs h db works e)
    ]

-- An expired record has the name.
abbrev expired_as : ℕ → Text → Record → Bool
expired_as now j r = is_past now r.expires_at && text_eq j r.name

text_mem-expired_names :
    (now : ℕ) (j : Text) (rs : List Record)
    → text_mem j (expired_names now rs) ≡ any (expired_as now j) rs
unfolding text_mem
text_mem-expired_names now j [] = refl
text_mem-expired_names now j (r ∷ rs) = ground (arith, text_mem-expired_names now j rs)

abbrev is_gone : ℕ → Option Record → Bool
is_gone now none = false
is_gone now (some r) = is_past now r.expires_at

any-records :
    (now : ℕ) (j : Text) (db : Db)
    → IsIndexed db
    → any (expired_as now j) (records db) ≡ is_gone now (lookup j db)
unfolding lookup
any-records now j [] _ = refl
any-records now j ((k, r) ∷ db) (same, (once, rest)) =
    ground (arith, same, any-records now j db rest, once, text_eq_iff j k, text_eq_iff k j)

-- What is left of a row.
abbrev pub unexpired : ℕ → Option Record → Option Record
unexpired now none = none
unexpired now (some r) = if is_past now r.expires_at then none else some r

row_left :
    (now : ℕ) (name : Text) (db : Db)
    → IsIndexed db
    → lookup name (remove_all (expired_names now (all db)) db) ≡ unexpired now (lookup name db)
unfolding all
row_left now name db indexed =
    lookup-remove_all name (expired_names now (all db)) db
    ∙ ap (λ b. if b then none else lookup name db)
        (text_mem-expired_names now name (all db)
          ∙ any-sort name_lt (expired_as now name) (records db)
          ∙ any-records now name db indexed)
    ∙ left (lookup name db)
  where
    left : (o : Option Record) → (if is_gone now o then none else o) ≡ unexpired now o
    left none = refl
    left (some r) = refl

list_users_db : (h : Host) (db : Db) → h.db ≡ some db → list_users h ≡ (h, ok (all db))
unfolding list_users load from
list_users_db h db e = ground (arith, e)

-- When every tool works and the database has each user once under the right name, `CleanExpired`
-- returns the names of the expired users in order, each user whose expiry is set and before now is
-- gone from the database, and every other row is as it was.
pub clean_expired_lem :
    (t : Tools) (now : ℕ) (h : Host) (db : Db) (name : Text)
    → Removes t
    → h.db ≡ some db
    → IsIndexed db
    → ((clean_expired t now h).1 ≡ ok (expired_names now (all db)))
      × (row_in name (clean_expired t now h).0.db ≡ unexpired now (lookup name db))
unfolding clean_expired guard
clean_expired_lem t now h db name works e indexed = ground (
  arith,
  works.as_root,
  list_users_db h db e,
  row_left now name db indexed,
  clean_records_db t now (all db) h db works e,
)
