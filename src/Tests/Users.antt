-- ===== src/Tests/Users.antt =====
-- internal/user and internal/pki: a host with two users, and a server that listens on tcp.
use hexplus_v.Base.{
  ℕ, ◌+◌, ◌*◌, ◌%◌, ◌≤◌, ◌<◌, ◌≡◌, refl, inr, Bool, true, false, some, [], ◌∷◌, arith,
}
use hexplus_v.Base.Int.{pos}
use hexplus_v.Maps.{lookup}
use hexplus_v.Pki.{read_server_listen, write_server_conf}
use hexplus_v.Pki.Listening.{read_server_listen-write}
use hexplus_v.User.{AddInput, add, clean_expired, day, expiry_of}
use hexplus_v.User.Clean.{IsIndexed, Removes, clean_expired_lem, expired_names, unexpired}
use hexplus_v.User.Expiry.{expiry_of_days}
use hexplus_v.User.Export.{OvpnInput, Tools, resolve_endpoint}
use hexplus_v.User.Rollback.{IsUnchanged, add_undone}
use hexplus_v.User.Made.{IsMade, add-IsMade, row_in}
use hexplus_v.User.Store.{Db, Host, Record, Result, all, err, ok, tool_failed}
use hexplus_v.Text.{Text, codes}

abbrev conf : Text
conf = write_server_conf 443 (codes "tcp") (codes "4")

read_server_listen-write_example :
    read_server_listen (some conf) ≡ some (record { proto = codes "tcp"; port = 443 })
read_server_listen-write_example =
    read_server_listen-write 443 (codes "tcp") (codes "4") (omega arith) (omega arith) (inr refl)

abbrev unset : OvpnInput
unset = record { username = []; remote_host = codes "vpn.example"; remote_port = pos 0; proto = [] }

abbrev old_user : Record
old_user = record { name = codes "ann"; created_at = 0; expires_at = some (3 * day); limit = pos 1 }

abbrev new_user : Record
new_user = record { name = codes "ben"; created_at = 0; expires_at = some (9 * day); limit = pos 2 }

abbrev db : Db
db = (codes "ben", new_user) ∷ (codes "ann", old_user) ∷ []

abbrev host : Host
host = record {
  accounts = (codes "ann", record { password = some (codes "pw"); expires = some (3 * day) }) ∷ [];
  certs = [];
  keys = [];
  db = some db;
}

abbrev tools : Tools
tools = record {
  root = true;
  getent = true;
  useradd = true;
  userdel = true;
  chpasswd = true;
  chage = true;
  mkdir = true;
  cert_written = true;
  key_written = true;
  cert_removed = true;
  key_removed = true;
  saved = true;
  ca_loads = true;
  signed = some (codes "CERT", codes "KEY");
  server_conf = some (codes "port 1194");
  ca = some (codes "CA");
  ta_key = some (codes "TA");
}

abbrev eve : AddInput
eve = record {
  name = codes "eve";
  password = codes "secret";
  expires_in_days = pos 30;
  limit = pos 1;
}

-- The key cannot be written.
abbrev full_disk : Tools
full_disk = record tools { key_written = false }

add_undone_example : IsUnchanged eve.name host (add full_disk (5 * day) eve unset host).0
unfolding add hexplus_v.User.add_checks hexplus_v.User.Export.is_valid_name lookup
    hexplus_v.Text.text_eq read_server_listen hexplus_v.User.add_ready hexplus_v.User.add_behind
add_undone_example = add_undone full_disk (5 * day) eve unset host tool_failed refl refl

is_ok : {A : Type 0} → Result A → Bool
is_ok (ok a) = true
is_ok (err e) = false

made :
    (r : Result (Record × Text))
    → is_ok r ≡ true
    → (x : Record) × (file : Text) × (r ≡ ok (x, file))
unfolding is_ok
made (ok (x, file)) h = (x, file, refl)
made (err e) h = cc

eve_added : (r : Record) × (file : Text) × ((add tools (5 * day) eve unset host).1 ≡ ok (r, file))
unfolding is_ok add hexplus_v.User.add_checks hexplus_v.User.Export.is_valid_name lookup
    hexplus_v.Text.text_eq read_server_listen hexplus_v.User.add_ready hexplus_v.User.add_behind
    hexplus_v.Pki.render_client_common hexplus_v.Maps.insert hexplus_v.User.Store.set_password
    hexplus_v.User.Store.create_account
eve_added = made (add tools (5 * day) eve unset host).1 refl

add-IsMade_example : IsMade tools (5 * day) eve (add tools (5 * day) eve unset host).0
add-IsMade_example = add-IsMade tools (5 * day) eve unset host eve_added.0 eve_added.1 eve_added.2

expiry_of_days_example :
    (e : ℕ) × (expiry_of (5 * day + 7) (pos 30) ≡ some e)
    × (e % day ≡ 0)
    × (e ≤ 5 * day + 7 + 30 * day)
    × (5 * day + 7 + 30 * day < e + day)
expiry_of_days_example = expiry_of_days (5 * day + 7) 30 (omega arith) (omega arith)

tools-Removes : Removes tools
tools-Removes = record {
  as_root = refl;
  deletes = refl;
  removes_cert = refl;
  removes_key = refl;
  saves = refl;
}

db-IsIndexed : IsIndexed db
unfolding lookup hexplus_v.Text.text_eq
db-IsIndexed = (refl, (refl, (refl, (refl, tt))))

clean_expired_lem_example :
    ((clean_expired tools (5 * day) host).1 ≡ ok (expired_names (5 * day) (all db)))
    × (row_in (codes "ann") (clean_expired tools (5 * day) host).0.db
        ≡ unexpired (5 * day) (lookup (codes "ann") db))
clean_expired_lem_example =
    clean_expired_lem tools (5 * day) host db (codes "ann") tools-Removes refl db-IsIndexed
