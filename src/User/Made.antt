-- ===== src/User/Made.antt =====
-- internal/user/user.go: what `Add` has done when it succeeds.
use mathlib.Core.Option.{some-injective}
use hexplus_v.Base.{
  ℕ, ◌≡◌, refl, ap, inl, inr, Bool, true, false, Option, none, some, List, [], ◌∷◌, arith,
  Bool-cases,
}
use hexplus_v.Maps.{lookup-insert, insert, lookup}
use hexplus_v.Text.{text_eq, Text, text_eq_refl}
use hexplus_v.User.{
  start_of_second, load, and_then, new_record, rollback, Db, Record, Result, add_ready, add,
  expiry_of, store_record, add_checks, AddInput, add_behind,
}
use hexplus_v.User.Export.{Tools, OvpnInput}
use hexplus_v.User.Rollback.{build_ovpn_reads}
use hexplus_v.User.Store.{
  load, Account, Host, amend, ok, err, call, from, create_account, set_password,
}

-- The row of a user.
abbrev pub row_in : Text → Option Db → Option Record
row_in name none = none
row_in name (some db) = lookup name db

lookup-amend :
    (k : Text) (f : Account → Account) (m : List (Text × Account)) (a : Account)
    → lookup k m ≡ some a
    → lookup k (amend k f m) ≡ some (f a)
unfolding lookup amend
lookup-amend k f [] a h = cc
lookup-amend k f ((j, b) ∷ m) a h = elim (Bool-cases (text_eq j k)) [
  | inl hit ↦ rw (hit, lookup, hit) (ap (λ c. some (f c)) (some-injective b a (rw hit at h)))
  | inr miss ↦ rw (miss, lookup, miss) (lookup-amend k f m a (rw miss at h))
]

row_saved : (i : AddInput) (r : Record) (db : Db) → lookup i.name (insert i.name r db) ≡ some r
row_saved i r db = rw (lookup-insert i.name i.name r db, text_eq_refl i.name)

store_record_ok :
    (t : Tools) (now : ℕ) (i : AddInput) (ovpn : Text) (h : Host) (r : Record) (file : Text)
    → (store_record t now i ovpn h).1 ≡ ok (r, file)
    → ((store_record t now i ovpn h).0.accounts ≡ h.accounts)
      × (row_in i.name (store_record t now i ovpn h).0.db ≡ some (new_record now i))
unfolding store_record call from load
store_record_ok t now i ovpn h r file done = grind (arith, row_saved, done)

-- The account and the row are there.
abbrev pub IsMade : Tools → ℕ → AddInput → Host → Type 0
IsMade t now i h =
    (lookup i.name h.accounts
      ≡ some (record { password = some i.password; expires = expiry_of now i.expires_in_days }))
    × (row_in i.name h.db
        ≡ some (record {
          name = i.name;
          created_at = start_of_second now;
          expires_at = expiry_of now i.expires_in_days;
          limit = i.limit;
        }))

created_password :
    (now : ℕ) (i : AddInput) (h : Host)
    → lookup i.name
        (set_password i.name i.password
          (create_account i.name (expiry_of now i.expires_in_days) h)).accounts
      ≡ some (record { password = some i.password; expires = expiry_of now i.expires_in_days })
unfolding set_password create_account
created_password now i h =
    lookup-amend i.name (λ a. record a { password = some i.password })
      (insert i.name (record { password = none; expires = expiry_of now i.expires_in_days })
        h.accounts)
      (record { password = none; expires = expiry_of now i.expires_in_days })
      (rw (
        lookup-insert i.name i.name
            (record { password = none; expires = expiry_of now i.expires_in_days }) h.accounts,
        text_eq_refl i.name,
      ))

add_behind_ok :
    (t : Tools) (now : ℕ) (i : AddInput) (o : OvpnInput) (h : Host) (r : Record) (file : Text)
    → (add_behind t now i o h).1 ≡ ok (r, file)
    → ((add_behind t now i o h).0.accounts ≡ (set_password i.name i.password h).accounts)
      × (row_in i.name (add_behind t now i o h).0.db ≡ some (new_record now i))
unfolding add_behind call from
add_behind_ok t now i o h r file done = grind (arith, build_ovpn_reads, store_record_ok, done)

rollback_ok :
    {A : Type 0} (b : Bool) (name : Text) (r : Host × Result A) (a : A)
    → (rollback b name r).1 ≡ ok a
    → (r.1 ≡ ok a) × ((rollback b name r).0 ≡ r.0)
rollback_ok b name (h, ok x) a done = (done, refl)
rollback_ok true name (h, err e) a done = cc
rollback_ok false name (h, err e) a done = cc

add_ready_ok :
    (t : Tools) (now : ℕ) (i : AddInput) (o : OvpnInput) (h : Host) (r : Record) (file : Text)
    → (add_ready t now i o h).1 ≡ ok (r, file)
    → IsMade t now i (add_ready t now i o h).0
unfolding add_ready call add_behind new_record
add_ready_ok t now i o h r file done = elim (Bool-cases t.useradd) [
  | inl made ↦
      let (worked, same) =
        rollback_ok t.userdel i.name (add_behind t now i o created) (r, file) (rw made at done) in
      let (accounts, row) = add_behind_ok t now i o created r file worked in
      rw made (rw same (accounts_made accounts, row))
  | inr not_made ↦ absurd (ground (arith, rw not_made at done))
]
  where
    created : Host
    created = create_account i.name (expiry_of now i.expires_in_days) h

    accounts_made :
        {m : List (Text × Account)}
        → m ≡ (set_password i.name i.password created).accounts
        → lookup i.name m
          ≡ some (record { password = some i.password; expires = expiry_of now i.expires_in_days })
    accounts_made e = rw e (created_password now i h)

checked_ok :
    (t : Tools) (now : ℕ) (i : AddInput) (r : Host × Result OvpnInput) (x : Record) (file : Text)
    → (and_then (add_ready t now i) r).1 ≡ ok (x, file)
    → IsMade t now i (and_then (add_ready t now i) r).0
checked_ok t now i (h, ok o) x file done = add_ready_ok t now i o h x file done
checked_ok t now i (h, err f) x file done = cc

-- When `Add` succeeds, the system account is there with the given password and the computed expiry,
-- and the database has the row of the user with the same expiry and the given limit.
pub add-IsMade :
    (t : Tools) (now : ℕ) (i : AddInput) (o : OvpnInput) (h : Host) (r : Record) (file : Text)
    → (add t now i o h).1 ≡ ok (r, file)
    → IsMade t now i (add t now i o h).0
unfolding add
add-IsMade t now i o h r file done = checked_ok t now i (add_checks t i o h) r file done
