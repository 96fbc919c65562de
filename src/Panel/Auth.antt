-- ===== src/Panel/Auth.antt =====
-- internal/panel/auth.go: sessions, login and logout. The tables that these handlers use are the
-- fields of `Server`; times are in seconds. A database that fails is left out.
pub mod Sessions
pub mod Sliding
pub mod Login
use hexplus_v.Base.{
  ℕ, ◌+◌, ◌*◌, Bool, true, false, not, Option, none, some, List, [], ◌∷◌, ◌++◌, ltb, leb,
  if◌then◌else◌,
}
use hexplus_v.Maps.{lookup, insert, remove}
use hexplus_v.Panel.Security.{IpTracker, is_banned, record_failure, clear_failures}
use hexplus_v.Text.{Text, codes, text_eq}
use hexplus_v.Text.Cut.{cut}

-- `SessionLifetime`
abbrev pub session_lifetime : ℕ
session_lifetime = 24 * 60 * 60

-- `int64(SessionLifetime.Seconds()*0.9)`
abbrev pub bump_below : ℕ
bump_below = 77760

-- A row of `sessions`, under its token.
pub record Session : Type 0 where
  pub admin_id : ℕ
  pub created_at : ℕ
  pub expires_at : ℕ
  pub remote_ip : Text

-- A row of `admin_users`, under its name.
pub record Admin : Type 0 where
  pub id : ℕ
  pub password_hash : Text
  pub last_login_at : ℕ

-- A row of `login_attempts`.
pub record Attempt : Type 0 where
  pub username : Text
  pub remote_ip : Text
  pub success : Bool
  pub at : ℕ

-- The tables, and the tracker of failed logins.
pub record Server : Type 0 where
  pub admins : List (Text × Admin)
  pub sessions : List (Text × Session)
  pub attempts : List Attempt
  pub ip_track : IpTracker

-- The token of a cookie `<token>.<sig>` that is signed; `hmac_hex` is the digest under the secret.
unfoldable pub signed_token : (hmac_hex : Text → Text) (cookie : Option Text) → Option Text
signed_token hmac_hex none = none
signed_token hmac_hex (some value) = elim (cut b'.' value) [
  | none ↦ none
  | some (token, sig) ↦ if text_eq (hmac_hex token) sig then some token else none
]

-- What `checkSession` does with the row of the token.
unfoldable pub use_row :
    (now : ℕ) (token : Text) (row : Session)
    → List (Text × Session)
    → List (Text × Session) × Option ℕ
use_row now token row sessions = if leb row.expires_at now then (remove token sessions, none) else (
  if ltb row.expires_at (now + bump_below)
      then insert token (record row { expires_at = now + session_lifetime }) sessions
      else sessions,
  some row.admin_id,
)

-- `checkSession`: the table, and the admin of a valid session.
unfoldable pub check_session :
    (hmac_hex : Text → Text) (now : ℕ) (cookie : Option Text)
    → List (Text × Session)
    → List (Text × Session) × Option ℕ
unfolding signed_token use_row
check_session hmac_hex now cookie sessions = elim (signed_token hmac_hex cookie) [
  | none ↦ (sessions, none)
  | some token ↦ elim (lookup token sessions) [
    | none ↦ (sessions, none)
    | some row ↦ use_row now token row sessions
  ]
]

-- `issueSession`, with the token that was drawn: the table with a new row, and the cookie's value;
-- `none` when the draw failed or the token, the primary key, is taken.
unfoldable pub issue_session :
    (hmac_hex : Text → Text) (now id : ℕ) (ip : Text) (drawn : Option Text)
    → List (Text × Session)
    → Option (List (Text × Session) × Text)
issue_session hmac_hex now id ip none sessions = none
issue_session hmac_hex now id ip (some token) sessions = elim (lookup token sessions) [
  | some taken ↦ none
  | none ↦ some (
    insert token
        record {
          admin_id = id;
          created_at = now;
          expires_at = now + session_lifetime;
          remote_ip = ip;
        }
        sessions,
    token ++ b'.' ∷ hmac_hex token,
  )
]

-- `remoteIP`
unfoldable pub remote_ip : Text → Text
remote_ip addr = elim (cut b':' addr) [ none ↦ addr | some (host, port) ↦ host ]

-- The replies of the login handler.
pub data Reply : Type 0 where
  method_not_allowed bad_json invalid_credentials session_error too_many_requests : Reply
  logged_in : (id : ℕ) (cookie : Text) → Reply

-- The decoded body of a login.
pub record Credentials : Type 0 where
  pub username : Text
  pub password : Text

-- A login that failed: the audit row, and one more failure of the address.
unfoldable pub reject : (username ip : Text) (now : ℕ) → Server → Server
reject username ip now s = record s {
  attempts =
      s.attempts ++ record { username = username; remote_ip = ip; success = false; at = now } ∷ [];
  ip_track = (record_failure ip now s.ip_track).0;
}

-- A login with the right password.
unfoldable pub accept :
    (hmac_hex : Text → Text) (username : Text) (admin : Admin) (ip : Text) (now : ℕ)
    (drawn : Option Text)
    → Server
    → Server × Reply
unfolding issue_session
accept hmac_hex username admin ip now drawn s =
    let audited : Server = record s {
      attempts =
          s.attempts
          ++ record { username = username; remote_ip = ip; success = true; at = now } ∷ [];
      ip_track = clear_failures ip s.ip_track;
    } in
    elim (issue_session hmac_hex now admin.id ip drawn s.sessions) [
      | none ↦ (audited, session_error)
      | some (sessions, cookie) ↦ (
        record audited {
          sessions = sessions;
          admins = insert username (record admin { last_login_at = now }) s.admins;
        },
        logged_in admin.id cookie,
      )
    ]

-- `handleLogin`; `body` is `none` for JSON that does not decode, `hash_matches` is bcrypt's test of
-- a hash and a password.
unfoldable pub handle_login :
    (hmac_hex : Text → Text) (hash_matches : Text → Text → Bool) (method : Text)
    (body : Option Credentials) (addr : Text) (now : ℕ) (drawn : Option Text)
    → Server
    → Server × Reply
unfolding reject accept
handle_login hmac_hex hash_matches method none addr now drawn s =
    (s, if text_eq method (codes "POST") then bad_json else method_not_allowed)
handle_login hmac_hex hash_matches method (some c) addr now drawn s =
    if not (text_eq method (codes "POST"))
    then (s, method_not_allowed)
    else elim (lookup c.username s.admins) [
      | none ↦ (reject c.username (remote_ip addr) now s, invalid_credentials)
      | some admin ↦
          if hash_matches admin.password_hash c.password
          then accept hmac_hex c.username admin (remote_ip addr) now drawn s
          else (reject c.username (remote_ip addr) now s, invalid_credentials)
    ]

-- `wrapLoginRateLimit(handleLogin)`, the route `/login`
unfoldable pub login_route :
    (hmac_hex : Text → Text) (hash_matches : Text → Text → Bool) (method : Text)
    (body : Option Credentials) (addr : Text) (now : ℕ) (drawn : Option Text)
    → Server
    → Server × Reply
login_route hmac_hex hash_matches method body addr now drawn s =
    let (tracker, banned) = is_banned (remote_ip addr) now s.ip_track in
    let pruned : Server = record s { ip_track = tracker } in
    if banned
    then (pruned, too_many_requests)
    else handle_login hmac_hex hash_matches method body addr now drawn pruned

-- `handleLogout`: the row under the cookie's token goes, whether the cookie is signed or not.
unfoldable pub handle_logout : Option Text → List (Text × Session) → List (Text × Session)
handle_logout none sessions = sessions
handle_logout (some value) sessions = elim (cut b'.' value) [
  | none ↦ sessions
  | some (token, sig) ↦ remove token sessions
]
