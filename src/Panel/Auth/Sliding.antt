-- ===== src/Panel/Auth/Sliding.antt =====
-- internal/panel/auth.go: the life of a session that is used.
use mathlib.Core.Option.{some-injective}
use hexplus_v.Base.{
  ℕ, ◌+◌, ◌≤◌, ◌<◌, ◌≡◌, refl, sym, ap, ◌∙◌, inl, inr, true, false, Option, none, some, List, [],
  ◌∷◌, map, arith, ltb, leb, Bool-cases, Option-cases,
}
use hexplus_v.Maps.{lookup, insert, lookup-insert}
use hexplus_v.Panel.Auth.{
  Session, session_lifetime, bump_below, use_row, check_session, issue_session,
}
use hexplus_v.Panel.Auth.Sessions.{cookie_of, signed_token-cookie_of, check_session-row}
use hexplus_v.Text.{Text, text_eq_refl}
use hexplus_v.Text.Lines.{Lacks}

-- Requests with one cookie, at the given times: the answers and the table after them.
abbrev pub answers :
    (hmac_hex : Text → Text) (cookie : Option Text)
    → List ℕ
    → List (Text × Session)
    → List (Option ℕ)
answers hmac_hex cookie [] sessions = []
answers hmac_hex cookie (now ∷ later) sessions =
    (check_session hmac_hex now cookie sessions).1
    ∷ answers hmac_hex cookie later (check_session hmac_hex now cookie sessions).0

abbrev pub after :
    (hmac_hex : Text → Text) (cookie : Option Text)
    → List ℕ
    → List (Text × Session)
    → List (Text × Session)
after hmac_hex cookie [] sessions = sessions
after hmac_hex cookie (now ∷ later) sessions =
    after hmac_hex cookie later (check_session hmac_hex now cookie sessions).0

abbrev pub last_of : ℕ → List ℕ → ℕ
last_of start [] = start
last_of start (now ∷ later) = last_of now later

-- No two neighbours are 90 % of the lifetime apart.
abbrev pub IsActive : ℕ → List ℕ → Type 0
IsActive start [] = Unit
IsActive start (now ∷ later) = (start ≤ now) × (now < start + bump_below) × IsActive now later

-- The row of a session that was last used at a time.
abbrev IsFresh : ℕ → ℕ → Session → Type 0
IsFresh id used row =
    (row.admin_id ≡ id)
    × (used + bump_below ≤ row.expires_at)
    × (row.expires_at ≤ used + session_lifetime)

use_row-IsFresh :
    (now used id : ℕ) (token : Text) (row : Session) (sessions : List (Text × Session))
    → lookup token sessions ≡ some row
    → IsFresh id used row
    → used ≤ now
    → now < used + bump_below
    → ((use_row now token row sessions).1 ≡ some id)
      × ((next : Session) × (lookup token (use_row now token row sessions).0 ≡ some next)
          × IsFresh id now next)
unfolding use_row
use_row-IsFresh now used id token row sessions found (of_admin, low, high) order near =
    let alive : leb row.expires_at now ≡ false = ground (arith, low, near) in
    elim (Bool-cases (ltb row.expires_at (now + bump_below))) [
      | inl due ↦
          rw (alive, due)
            (
              ap some of_admin,
              (
                record row { expires_at = now + session_lifetime },
                ground (
                  arith,
                  text_eq_refl token,
                  lookup-insert token token (record row { expires_at = now + session_lifetime })
                      sessions,
                ),
                (of_admin, omega arith, omega arith),
              ),
            )
      | inr early ↦
          rw (alive, early)
            (
              ap some of_admin,
              (row, found, (of_admin, ground (arith, early), ground (arith, high, order))),
            )
    ]

active_run :
    (hmac_hex : Text → Text) (token : Text) (id start : ℕ) (ts : List ℕ) (row : Session)
    (sessions : List (Text × Session))
    → Lacks b'.' token
    → lookup token sessions ≡ some row
    → IsFresh id start row
    → IsActive start ts
    → (answers hmac_hex (some (cookie_of hmac_hex token)) ts sessions ≡ map (λ _. some id) ts)
      × ((last : Session) × (lookup token
              (after hmac_hex (some (cookie_of hmac_hex token)) ts sessions)
            ≡ some last)
          × IsFresh id (last_of start ts) last)
active_run hmac_hex token id start [] row sessions dot found live _ = (refl, (row, found, live))
active_run hmac_hex token id start (now ∷ ts) row sessions dot found live (order, near, active) =
    let cookie = some (cookie_of hmac_hex token) in
    let step =
      check_session-row hmac_hex now cookie token row sessions
        (signed_token-cookie_of hmac_hex token dot) found in
    let (answer, (next, found_next, live_next)) =
      use_row-IsFresh now start id token row sessions found live order near in
    let table = (use_row now token row sessions).0 in
    let (rest, ending) =
      active_run hmac_hex token id now ts next table dot found_next live_next active in
    rw (step, answer) (ap (◌∷◌ (some id)) rest, ending)

new_row : ℕ → ℕ → Text → Session
new_row start id ip = record {
  admin_id = id;
  created_at = start;
  expires_at = start + session_lifetime;
  remote_ip = ip;
}

issue_session-row :
    (hmac_hex : Text → Text) (token ip : Text) (id start : ℕ)
    (sessions issued : List (Text × Session)) (cookie : Text)
    → issue_session hmac_hex start id ip (some token) sessions ≡ some (issued, cookie)
    → (cookie ≡ cookie_of hmac_hex token)
      × ((row : Session) × (lookup token issued ≡ some row) × IsFresh id start row)
unfolding issue_session new_row
issue_session-row hmac_hex token ip id start sessions issued cookie e =
    elim (Option-cases (lookup token sessions)) [
      | inr (taken, found) ↦ ground (arith, rw (issue_session, found) at e)
      | inl free ↦
          let made =
            some-injective (insert token (new_row start id ip) sessions, cookie_of hmac_hex token)
              (issued, cookie) (rw (issue_session, free) at e) in
          let table = ap (λ (x : List (Text × Session) × Text). x.0) made in
          (
            sym (ap (λ (x : List (Text × Session) × Text). x.1) made),
            (
              new_row start id ip,
              rw (sym table) (
                  rw (lookup-insert token token (new_row start id ip) sessions, text_eq_refl token)
                    refl),
              (refl, omega arith, omega arith),
            ),
          )
    ]

late_request :
    (hmac_hex : Text → Text) (token : Text) (id used later : ℕ) (row : Session)
    (sessions : List (Text × Session))
    → Lacks b'.' token
    → lookup token sessions ≡ some row
    → IsFresh id used row
    → used + session_lifetime ≤ later
    → (check_session hmac_hex later (some (cookie_of hmac_hex token)) sessions).1 ≡ none
unfolding use_row
late_request hmac_hex token id used later row sessions dot found (_, _, high) late =
    let over : leb row.expires_at later ≡ true = ground (arith, high, late) in
    rw
      (
        check_session-row hmac_hex later (some (cookie_of hmac_hex token)) token row sessions
            (signed_token-cookie_of hmac_hex token dot) found,
        over,
      )
      refl

-- A session that is used again before 90 % of its lifetime have passed, again and again, lets every
-- request in, and after the last of them it is good for 90 % of the lifetime.
pub session_slides :
    (hmac_hex : Text → Text) (token ip : Text) (id start later : ℕ) (ts : List ℕ)
    (sessions issued : List (Text × Session)) (cookie : Text)
    → Lacks b'.' token
    → issue_session hmac_hex start id ip (some token) sessions ≡ some (issued, cookie)
    → IsActive start ts
    → last_of start ts ≤ later
    → later < last_of start ts + bump_below
    → (answers hmac_hex (some cookie) ts issued ≡ map (λ _. some id) ts)
      × ((check_session hmac_hex later (some cookie) (after hmac_hex (some cookie) ts issued)).1
          ≡ some id)
session_slides hmac_hex token ip id start later ts sessions issued cookie dot e active order near =
    let (is_cookie, (row, found, live)) =
      issue_session-row hmac_hex token ip id start sessions issued cookie e in
    let (all_in, (last, found_last, live_last)) =
      active_run hmac_hex token id start ts row issued dot found live active in
    let table = after hmac_hex (some (cookie_of hmac_hex token)) ts issued in
    let row_of =
      check_session-row hmac_hex later (some (cookie_of hmac_hex token)) token last table
        (signed_token-cookie_of hmac_hex token dot) found_last in
    rw is_cookie (
      all_in,
      ap (λ (x : List (Text × Session) × Option ℕ). x.1) row_of
          ∙ (use_row-IsFresh later (last_of start ts) id token last table found_last live_last order
              near).0,
    )

-- A session that was used in that way is refused a whole lifetime after its last request, and at any
-- later time.
pub session_expires :
    (hmac_hex : Text → Text) (token ip : Text) (id start later : ℕ) (ts : List ℕ)
    (sessions issued : List (Text × Session)) (cookie : Text)
    → Lacks b'.' token
    → issue_session hmac_hex start id ip (some token) sessions ≡ some (issued, cookie)
    → IsActive start ts
    → last_of start ts + session_lifetime ≤ later
    → (check_session hmac_hex later (some cookie) (after hmac_hex (some cookie) ts issued)).1 ≡ none
session_expires hmac_hex token ip id start later ts sessions issued cookie dot e active late =
    let (is_cookie, (row, found, live)) =
      issue_session-row hmac_hex token ip id start sessions issued cookie e in
    let (_, (last, found_last, live_last)) =
      active_run hmac_hex token id start ts row issued dot found live active in
    rw is_cookie (
      late_request hmac_hex token id (last_of start ts) later last
        (after hmac_hex (some (cookie_of hmac_hex token)) ts issued) dot found_last live_last late)
