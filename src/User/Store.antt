-- ===== src/User/Store.antt =====
-- internal/user/db.go and system.go: what an account operation reads and changes on the host, and the
-- chain of its fallible steps. The system's tools succeed or fail as the arguments say.
use hexplus_v.Base.{if◌then◌else◌, ℕ, Bool, true, false, Option, none, some, List, [], ◌∷◌}
use hexplus_v.Base.Int.{ℤ}
use hexplus_v.Base.Order.{sort}
use hexplus_v.Maps.{insert, remove}
use hexplus_v.Text.{text_eq, Text, text_lt}

-- `Record`: times in nanoseconds, `none` for the zero time
pub record Record : Type 0 where
  pub name : Text
  pub created_at : ℕ
  pub expires_at : Option ℕ
  pub limit : ℤ

-- `DB`
abbrev pub Db : Type 0
Db = List (Text × Record)

-- A system account: its password, if one is set, and the day on which it expires.
pub record Account : Type 0 where
  pub password : Option Text
  pub expires : Option ℕ

-- The system accounts, the client certificates and keys, and the database, `none` if it cannot be
-- read or parsed.
pub record Host : Type 0 where
  pub accounts : List (Text × Account)
  pub certs : List (Text × Text)
  pub keys : List (Text × Text)
  pub db : Option Db

pub data Error : Type 0 where
  not_root : Error
  bad_name : Error
  empty_password : Error
  long_password : Error
  broken_password : Error
  account_exists : Error
  tool_failed : Error
  bad_endpoint : Error
  not_exported : Error
  no_db : Error

pub data Result {ℓ} (A : Type ℓ) : Type ℓ where
  ok : A → Result A
  err : Error → Result A

-- A step that reads and changes the host.
abbrev pub M {ℓ} : Type ℓ → Type ℓ
M A = Host → Host × Result A

abbrev pub and_then {ℓ κ} :
    {A : Type ℓ} {B : Type κ} → (A → M B) → Host × Result A → Host × Result B
and_then f (h, ok a) = f a h
and_then f (h, err e) = (h, err e)

infixl 5 ◌>>=◌ ◌>>◌
abbrev pub ◌>>=◌ {ℓ κ} : {A : Type ℓ} {B : Type κ} → M A → (A → M B) → M B
◌>>=◌ m f h = and_then f (m h)

abbrev pub ◌>>◌ {ℓ} : {B : Type ℓ} → M (Unit {0}) → M B → M B
m >> k = m >>= λ _. k

abbrev pub return {ℓ} : {A : Type ℓ} → A → M A
return a h = (h, ok a)

-- A call of a tool: it changes the host, or it fails and changes nothing.
unfoldable pub call : Bool → Error → (Host → Host) → M (Unit {0})
call true e change h = (change h, ok tt)
call false e change h = (h, err e)

-- A condition that must hold.
unfoldable pub guard : Bool → Error → M (Unit {0})
guard true e h = (h, ok tt)
guard false e h = (h, err e)

-- A value that is read, or an error.
unfoldable pub from {ℓ} : {A : Type ℓ} → Option A → Error → M A
from none e h = (h, err e)
from (some a) e h = (h, ok a)

-- An account is changed, if it is there.
unfoldable pub amend : Text → (Account → Account) → List (Text × Account) → List (Text × Account)
amend name f [] = []
amend name f ((k, a) ∷ others) =
    if text_eq k name then (k, f a) ∷ others else (k, a) ∷ amend name f others

-- `useradd`
unfoldable pub create_account : Text → Option ℕ → Host → Host
create_account name expires h = record h {
  accounts = insert name (record { password = none; expires = expires }) h.accounts;
}

-- `chpasswd`
unfoldable pub set_password : Text → Text → Host → Host
unfolding amend
set_password name password h = record h {
  accounts = amend name (λ a. record a { password = some password }) h.accounts;
}

-- `chage -E`
unfoldable pub chage_expiry : Text → Option ℕ → Host → Host
unfolding amend
chage_expiry name expires h = record h {
  accounts = amend name (λ a. record a { expires = expires }) h.accounts;
}

-- `userdel`
unfoldable pub delete_account : Text → Host → Host
delete_account name h = record h { accounts = remove name h.accounts }

abbrev pub keep_cert : Text → Text → Host → Host
keep_cert name cert h = record h { certs = insert name cert h.certs }

abbrev pub keep_key : Text → Text → Host → Host
keep_key name key h = record h { keys = insert name key h.keys }

abbrev pub drop_cert : Text → Host → Host
drop_cert name h = record h { certs = remove name h.certs }

abbrev pub drop_key : Text → Host → Host
drop_key name h = record h { keys = remove name h.keys }

abbrev pub save_db : Db → Host → Host
save_db db h = record h { db = some db }

-- `Load`
unfoldable pub load : M Db
unfolding from
load h = from h.db no_db h

abbrev pub records : Db → List Record
records [] = []
records ((k, r) ∷ db) = r ∷ records db

abbrev pub name_lt : Record → Record → Bool
name_lt a b = text_lt a.name b.name

-- `DB.All`
unfoldable pub all : Db → List Record
all db = sort name_lt (records db)
