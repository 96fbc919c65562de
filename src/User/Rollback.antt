-- ===== src/User/Rollback.antt =====
-- internal/user/user.go: what `Add` leaves behind when it fails.
use mathlib.Core.Path.{subst}
use hexplus_v.Base.{
  ℕ, ◌≡◌, refl, ap, ◌∙◌, inl, inr, true, Option, none, some, List, [], ◌∷◌, arith, Bool-cases,
}
use hexplus_v.Maps.{insert, lookup, remove}
use hexplus_v.Text.{Text, text_eq_refl}
use hexplus_v.User.{
  and_then, rollback, Result, add_ready, add, expiry_of, store_record, add_checks, AddInput,
  add_behind,
}
use hexplus_v.User.Export.{Tools, OvpnInput, build_ovpn}
use hexplus_v.User.Store.{
  Account, Host, Error, amend, ok, err, call, from, create_account, set_password, delete_account,
}

module _ {ℓ} {V : Type ℓ} where
  remove_absent : (k : Text) (m : List (Text × V)) → lookup k m ≡ none → remove k m ≡ m
  unfolding lookup remove
  remove_absent k [] h = refl
  remove_absent k ((j, v) ∷ m) h = ground (arith, h, remove_absent k m)

  remove-insert : (k : Text) (v : V) (m : List (Text × V)) → remove k (insert k v m) ≡ remove k m
  unfolding insert remove
  remove-insert k v [] = ground (arith, text_eq_refl k)
  remove-insert k v ((j, w) ∷ m) = ground (arith, remove-insert k v m)

remove-amend :
    (k : Text) (f : Account → Account) (m : List (Text × Account))
    → remove k (amend k f m) ≡ remove k m
unfolding amend remove
remove-amend k f [] = refl
remove-amend k f ((j, a) ∷ m) = ground (arith, remove-amend k f m)

pub build_ovpn_reads : (t : Tools) (o : OvpnInput) (h : Host) → (build_ovpn t o h).0 ≡ h
unfolding build_ovpn
build_ovpn_reads t o h = ground arith

-- The certificates and keys of all other names are as before.
abbrev pub SameOthers : Text → Host → Host → Type 0
SameOthers name old h =
    (remove name h.certs ≡ remove name old.certs) × (remove name h.keys ≡ remove name old.keys)

-- Without the account, the accounts are as before, and so is the database.
abbrev IsUndoable : Text → Host → Host → Type 0
IsUndoable name old h =
    (remove name h.accounts ≡ old.accounts) × (h.db ≡ old.db) × SameOthers name old h

remove-insert_text : (k v : Text) (m : List (Text × Text)) → remove k (insert k v m) ≡ remove k m
remove-insert_text k v m = remove-insert k v m

store_record_err :
    (t : Tools) (now : ℕ) (i : AddInput) (ovpn : Text) (h : Host) (e : Error)
    → (store_record t now i ovpn h).1 ≡ err e
    → (store_record t now i ovpn h).0 ≡ h
unfolding store_record
store_record_err t now i ovpn h e failed = ground (arith, failed)

add_behind_err :
    (t : Tools) (now : ℕ) (i : AddInput) (o : OvpnInput) (old h : Host) (e : Error)
    → IsUndoable i.name old h
    → (add_behind t now i o h).1 ≡ err e
    → IsUndoable i.name old (add_behind t now i o h).0
unfolding add_behind call from set_password
add_behind_err t now i o old h e start failed = grind (
  arith,
  build_ovpn_reads,
  store_record_err,
  remove-insert_text,
  failed,
  remove-amend i.name (λ a. record a { password = some i.password }) h.accounts,
)

-- The accounts and the database are as before, and so are the certificates and keys but the name's.
abbrev pub IsUnchanged : Text → Host → Host → Type 0
IsUnchanged name old h = (h.accounts ≡ old.accounts) × (h.db ≡ old.db) × SameOthers name old h

create_account-IsUndoable :
    (name : Text) (expires : Option ℕ) (h : Host)
    → lookup name h.accounts ≡ none
    → IsUndoable name h (create_account name expires h)
unfolding create_account
create_account-IsUndoable name expires h gone = (
  remove-insert name (record { password = none; expires = expires }) h.accounts
      ∙ remove_absent name h.accounts gone,
  refl,
  (refl, refl),
)

-- What the checks have established for `Add` to go on.
add_checks-absent :
    (t : Tools) (i : AddInput) (o e : OvpnInput) (h : Host)
    → (add_checks t i o h).1 ≡ ok e
    → lookup i.name h.accounts ≡ none
unfolding add_checks
add_checks-absent t i o e h done = ground (arith, done)

add_checks_reads :
    (t : Tools) (i : AddInput) (o : OvpnInput) (h : Host) → (add_checks t i o h).0 ≡ h
unfolding add_checks
add_checks_reads t i o h = ground arith

-- The end of `Add` undoes what is behind it.
rollback-IsUnchanged :
    {A : Type 0} (name : Text) (old : Host) (r : Host × Result A) (e : Error)
    → (r.1 ≡ err e → IsUndoable name old r.0)
    → (rollback true name r).1 ≡ err e
    → IsUnchanged name old (rollback true name r).0
unfolding delete_account
rollback-IsUnchanged name old (h, ok a) e undone failed = cc
rollback-IsUnchanged name old (h, err f) e undone failed = undone failed

add_ready_undone :
    (t : Tools) (now : ℕ) (i : AddInput) (o : OvpnInput) (h : Host) (e : Error)
    → t.userdel ≡ true
    → lookup i.name h.accounts ≡ none
    → (add_ready t now i o h).1 ≡ err e
    → IsUnchanged i.name h (add_ready t now i o h).0
unfolding add_ready call add_behind
add_ready_undone t now i o h e works gone failed = elim (Bool-cases t.useradd) [
  | inl made ↦
      rw (made, works)
        (rollback-IsUnchanged i.name h (add_behind t now i o created) e
          (λ f. add_behind_err t now i o h created e start f) (rw (made, works) at failed))
  | inr not_made ↦ rw not_made (refl, refl, (refl, refl))
]
  where
    created : Host
    created = create_account i.name (expiry_of now i.expires_in_days) h

    start : IsUndoable i.name h created
    start = create_account-IsUndoable i.name (expiry_of now i.expires_in_days) h gone

checked_undone :
    (t : Tools) (now : ℕ) (i : AddInput) (old : Host) (r : Host × Result OvpnInput) (e : Error)
    → t.userdel ≡ true
    → r.0 ≡ old
    → ((o : OvpnInput) → r.1 ≡ ok o → lookup i.name old.accounts ≡ none)
    → (and_then (add_ready t now i) r).1 ≡ err e
    → IsUnchanged i.name old (and_then (add_ready t now i) r).0
checked_undone t now i old (h, ok o) e works same gone failed =
    subst (λ g. IsUnchanged i.name g (add_ready t now i o h).0) same
      (add_ready_undone t now i o h e works (rw same (gone o refl)) failed)
checked_undone t now i old (h, err f) e works same gone failed = (
  ap (λ g. g.accounts) same,
  ap (λ g. g.db) same,
  (ap (λ g. remove i.name g.certs) same, ap (λ g. remove i.name g.keys) same),
)

-- When `Add` returns an error, and `userdel` works, the system accounts and the database are what they
-- were before, and so are the certificates and keys of all other names; a certificate or key that was
-- written for the name itself before the step that failed may stay.
pub add_undone :
    (t : Tools) (now : ℕ) (i : AddInput) (o : OvpnInput) (h : Host) (e : Error)
    → t.userdel ≡ true
    → (add t now i o h).1 ≡ err e
    → IsUnchanged i.name h (add t now i o h).0
unfolding add
add_undone t now i o h e works failed =
    checked_undone t now i h (add_checks t i o h) e works (add_checks_reads t i o h)
      (λ x. add_checks-absent t i o x h) failed
