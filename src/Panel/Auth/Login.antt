-- ===== src/Panel/Auth/Login.antt =====
-- internal/panel/auth.go: who gets a session, and what the other logins leave behind.
use hexplus_v.Base.{
  ℕ, ◌≡◌, refl, sym, ap, inl, inr, Bool, true, false, Option, none, some, [], ◌∷◌, ◌++◌, arith,
  Bool-cases, Option-cases,
}
use hexplus_v.Maps.{lookup}
use hexplus_v.Panel.Auth.{
  Admin, Credentials, Reply, Server, accept, bad_json, handle_login, invalid_credentials,
  issue_session, logged_in, login_route, method_not_allowed, reject, remote_ip, session_error,
  too_many_requests,
}
use hexplus_v.Panel.Security.{is_banned}
use hexplus_v.Text.{Text, codes, text_eq, text_eq_iff}
use hexplus_v.Text.Cut.{cut-append}
use hexplus_v.Text.Lines.{Lacks}

-- The address of a client is what stands before the first colon of `RemoteAddr`, for IPv6 as well,
-- where that is the bracket and the first group only.
pub remote_ip_lem : (head rest : Text) → Lacks b':' head → remote_ip (head ++ b':' ∷ rest) ≡ head
unfolding remote_ip
remote_ip_lem head rest h = rw (remote_ip, cut-append b':' head rest h) refl

module _ (hmac_hex : Text → Text) (hash_matches : Text → Text → Bool) where
  -- The login is that of an admin, with a password that fits.
  abbrev pub IsAdmin : Credentials → Admin → Server → Type 0
  IsAdmin c admin s =
      (lookup c.username s.admins ≡ some admin)
      × (hash_matches admin.password_hash c.password ≡ true)

  abbrev id_of : Reply → ℕ
  id_of (logged_in id _) = id
  id_of method_not_allowed = 0
  id_of bad_json = 0
  id_of invalid_credentials = 0
  id_of session_error = 0
  id_of too_many_requests = 0

  abbrev cookie_in : Reply → Text
  cookie_in (logged_in _ cookie) = cookie
  cookie_in method_not_allowed = []
  cookie_in bad_json = []
  cookie_in invalid_credentials = []
  cookie_in session_error = []
  cookie_in too_many_requests = []

  accept_answer :
      (username : Text) (admin : Admin) (ip : Text) (now id : ℕ) (drawn : Option Text) (s : Server)
      (cookie : Text)
      → (accept hmac_hex username admin ip now drawn s).1 ≡ logged_in id cookie
      → (admin.id ≡ id)
        × (issue_session hmac_hex now id ip drawn s.sessions
            ≡ some ((accept hmac_hex username admin ip now drawn s).0.sessions, cookie))
  unfolding accept
  accept_answer username admin ip now id drawn s cookie e =
      elim (Option-cases (issue_session hmac_hex now admin.id ip drawn s.sessions)) [
        | inl gone ↦ ground (arith, rw (accept, gone) at e)
        | inr ((table, value), made) ↦
            let reply : logged_in admin.id value ≡ logged_in id cookie = rw (accept, made) at e in
            let same : admin.id ≡ id = ap id_of reply in
            let given : value ≡ cookie = ap cookie_in reply in
            let kept : (accept hmac_hex username admin ip now drawn s).0.sessions ≡ table =
              rw (accept, made) refl in
            (same, rw (kept, sym given, sym same) made)
      ]

  handle_sound :
      (method : Text) (body : Option Credentials) (addr : Text) (now : ℕ) (drawn : Option Text)
      (s : Server) (id : ℕ) (cookie : Text)
      → (handle_login hmac_hex hash_matches method body addr now drawn s).1 ≡ logged_in id cookie
      → (method ≡ codes "POST")
        × ((c : Credentials) × (admin : Admin) × (body ≡ some c)
            × IsAdmin c admin s
            × (admin.id ≡ id))
        × (issue_session hmac_hex now id (remote_ip addr) drawn s.sessions
            ≡ some (
              (handle_login hmac_hex hash_matches method body addr now drawn s).0.sessions,
              cookie,
            ))
  unfolding handle_login
  handle_sound method none addr now drawn s id cookie e = ground (arith, e)
  handle_sound method (some c) addr now drawn s id cookie e =
      elim (Bool-cases (text_eq method (codes "POST"))) [
        | inr other ↦ ground (arith, rw other at e)
        | inl post ↦ elim (Option-cases (lookup c.username s.admins)) [
          | inl unknown ↦ ground (arith, rw (handle_login, post, unknown) at e)
          | inr (admin, found) ↦ elim (Bool-cases (hash_matches admin.password_hash c.password)) [
            | inr wrong ↦ ground (arith, rw (handle_login, post, found, wrong) at e)
            | inl right ↦
                let (same, issued) =
                  accept_answer c.username admin (remote_ip addr) now id drawn s cookie
                    (rw (handle_login, post, found, right) at e) in
                (
                  (text_eq_iff method (codes "POST")).0 post,
                  (c, admin, refl, (found, right), same),
                  rw (handle_login, post, found, right) issued,
                )
          ]
        ]
      ]

  -- A cookie is given out only by a POST from an address that is not banned, with a decoded body
  -- that names an admin and a password that fits the stored hash; and it is the cookie of a session
  -- that `issueSession` has put into the table for that admin.
  pub login_sound :
      (method : Text) (body : Option Credentials) (addr : Text) (now : ℕ) (drawn : Option Text)
      (s : Server) (id : ℕ) (cookie : Text)
      → (login_route hmac_hex hash_matches method body addr now drawn s).1 ≡ logged_in id cookie
      → (method ≡ codes "POST")
        × ((is_banned (remote_ip addr) now s.ip_track).1 ≡ false)
        × ((c : Credentials) × (admin : Admin) × (body ≡ some c)
            × IsAdmin c admin s
            × (admin.id ≡ id))
        × (issue_session hmac_hex now id (remote_ip addr) drawn s.sessions
            ≡ some (
              (login_route hmac_hex hash_matches method body addr now drawn s).0.sessions,
              cookie,
            ))
  unfolding login_route
  login_sound method body addr now drawn s id cookie e =
      elim (Bool-cases (is_banned (remote_ip addr) now s.ip_track).1) [
        | inl banned ↦ ground (arith, rw banned at e)
        | inr free ↦
            let pruned : Server = record s {
              ip_track = (is_banned (remote_ip addr) now s.ip_track).0;
            } in
            let (post, admin, issued) =
              handle_sound method body addr now drawn pruned id cookie (rw free at e) in
            rw free (post, refl, admin, issued)
      ]

  -- A wrong password and an unknown name are answered alike, and leave the same state: one audit row
  -- and one more failure of the address.
  pub wrong_or_unknown :
      (c : Credentials) (addr : Text) (now : ℕ) (drawn : Option Text) (s : Server)
      → ((admin : Admin) → ¬ IsAdmin c admin s)
      → handle_login hmac_hex hash_matches (codes "POST") (some c) addr now drawn s
        ≡ (reject c.username (remote_ip addr) now s, invalid_credentials)
  unfolding handle_login text_eq
  wrong_or_unknown c addr now drawn s h = elim (Option-cases (lookup c.username s.admins)) [
    | inl unknown ↦ rw (handle_login, unknown) refl
    | inr (admin, found) ↦ elim (Bool-cases (hash_matches admin.password_hash c.password)) [
      | inr wrong ↦ rw (handle_login, found, wrong) refl
      | inl right ↦ absurd (h admin (found, right))
    ]
  ]
