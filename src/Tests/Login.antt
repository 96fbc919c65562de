-- ===== src/Tests/Login.antt =====
-- internal/panel: one admin logs in, works and logs out. The digest reverses its text and a password
-- fits when it is the hash.
use hexplus_v.Base.{ℕ, ◌+◌, ◌≡◌, refl, ◌↔◌, false, some, List, [], ◌∷◌, map, arith}
use hexplus_v.Maps.{lookup}
use hexplus_v.Panel.Auth.{
  Admin, Credentials, Server, Session, check_session, handle_login, issue_session, login_route,
  remote_ip,
}
use hexplus_v.Panel.Auth.Login.{IsAdmin, login_sound}
use hexplus_v.Panel.Auth.Sessions.{cookie_of, IsLive, check_session_iff}
use hexplus_v.Panel.Auth.Sliding.{answers, after, session_slides}
use hexplus_v.Panel.Security.{is_banned, new_ip_tracker}
use hexplus_v.Text.{Text, codes, text_eq}
use hexplus_v.Text.Lines.{Lacks}

abbrev digest : Text → Text
digest t = map (λ c. c + 1) t

abbrev token : Text
token = codes "cafe"

abbrev row : Session
row = record { admin_id = 1; created_at = 0; expires_at = 86400; remote_ip = codes "192.0.2.1" }

abbrev table : List (Text × Session)
table = (codes "cafe", row) ∷ []

check_session_iff_example :
    ((check_session digest 50 (some (cookie_of digest token)) table).1 ≡ some 1) ↔ (
      (t : Text) × (some (cookie_of digest token) ≡ some (cookie_of digest t))
      × Lacks b'.' t
      × IsLive t 1 50 table)
check_session_iff_example = check_session_iff digest 50 1 (some (cookie_of digest token)) table

abbrev visits : List ℕ
visits = 40000 ∷ 100000 ∷ []

session_slides_example :
    (answers digest (some (cookie_of digest token)) visits table ≡ some 1 ∷ some 1 ∷ [])
    × ((check_session digest 150000
          (some (cookie_of digest token))
          (after digest (some (cookie_of digest token)) visits table)).1
        ≡ some 1)
unfolding issue_session lookup hexplus_v.Maps.insert
session_slides_example =
    session_slides digest token (codes "192.0.2.1") 1 0 150000 visits [] table
      (cookie_of digest token) (omega arith) refl (omega arith) (omega arith) (omega arith)

abbrev server : Server
server = record {
  admins = (codes "root", record { id = 1; password_hash = codes "pw"; last_login_at = 0 }) ∷ [];
  sessions = [];
  attempts = [];
  ip_track = new_ip_tracker (record { failures = 5; window = 600; ban_duration = 3600 });
}

abbrev credentials : Text → Credentials
credentials password = record { username = codes "root"; password = password }

abbrev addr : Text
addr = codes "192.0.2.1:5000"

login_sound_example :
    (codes "POST" ≡ codes "POST")
    × ((is_banned (remote_ip addr) 0 server.ip_track).1 ≡ false)
    × ((c : Credentials) × (admin : Admin) × (some (credentials (codes "pw")) ≡ some c)
        × IsAdmin digest text_eq c admin server
        × (admin.id ≡ 1))
    × (issue_session digest 0 1 (remote_ip addr) (some token) []
        ≡ some (
          (login_route digest text_eq
              (codes "POST")
              (some (credentials (codes "pw")))
              addr
              0
              (some token)
              server).0.sessions,
          cookie_of digest token,
        ))
unfolding login_route is_banned lookup handle_login text_eq
login_sound_example =
    login_sound digest text_eq (codes "POST") (some (credentials (codes "pw"))) addr 0 (some token)
      server 1 (cookie_of digest token) refl
