-- ===== src/Panel/Auth/Sessions.antt =====
-- internal/panel/auth.go: which cookies are valid, how long a session lives, and how it ends.
use mathlib.Core.Option.{some-injective}
use mathlib.Core.Path.{subst}
use hexplus_v.Base.{
  ℕ, ◌<◌, ◌≡◌, refl, sym, ap, ◌∙◌, ◌≢◌, ◌↔◌, inl, inr, Option, none, some, List, ◌∷◌, ◌++◌, arith,
  leb, Bool-cases, Option-cases,
}
use hexplus_v.Maps.{lookup, remove, lookup-remove}
use hexplus_v.Panel.Auth.{Session, signed_token, use_row, check_session, handle_logout}
use hexplus_v.Text.{text_eq_refl, Text, text_eq, text_eq_iff, text_eq_refl}
use hexplus_v.Text.Cut.{cut, cut-append, cut-parts}
use hexplus_v.Text.Lines.{Lacks}

-- The cookie that goes with a token.
abbrev pub cookie_of : (Text → Text) → Text → Text
cookie_of hmac_hex token = token ++ b'.' ∷ hmac_hex token

pub signed_token-cookie_of :
    (hmac_hex : Text → Text) (token : Text)
    → Lacks b'.' token
    → signed_token hmac_hex (some (cookie_of hmac_hex token)) ≡ some token
unfolding signed_token
signed_token-cookie_of hmac_hex token h =
    rw (signed_token, cut-append b'.' token (hmac_hex token) h, text_eq_refl (hmac_hex token)) refl

signed_token-signed :
    (hmac_hex : Text → Text) (cookie : Option Text) (token : Text)
    → signed_token hmac_hex cookie ≡ some token
    → (cookie ≡ some (cookie_of hmac_hex token)) × Lacks b'.' token
unfolding signed_token
signed_token-signed hmac_hex none token e = ground (arith, e)
signed_token-signed hmac_hex (some value) token e = elim (Option-cases (cut b'.' value)) [
  | inl gone ↦ ground (arith, e, gone)
  | inr ((t, sig), found) ↦
      let (parts, lacks) = cut-parts b'.' value t sig found in
      elim (Bool-cases (text_eq (hmac_hex t) sig)) [
        | inl same ↦
            let t_is_token : t ≡ token =
              some-injective t token (rw (signed_token, found, same) at e) in
            let sig_is : hmac_hex t ≡ sig = (text_eq_iff (hmac_hex t) sig).0 same in
            (
              ap some (
                  parts
                  ∙ ap (λ (x : Text). t ++ b'.' ∷ x) (sym sig_is)
                  ∙ ap (cookie_of hmac_hex) t_is_token),
              subst (Lacks b'.') t_is_token lacks,
            )
        | inr other ↦ ground (arith, rw (signed_token, found, other) at e)
      ]
]

-- The row of a token that may log in at a time.
abbrev pub IsLive : Text → ℕ → ℕ → List (Text × Session) → Type 0
IsLive token id now sessions =
    (row : Session) × (lookup token sessions ≡ some row)
    × (row.admin_id ≡ id)
    × (now < row.expires_at)

use_row-live :
    (now id : ℕ) (token : Text) (row : Session) (sessions : List (Text × Session))
    → ((use_row now token row sessions).1 ≡ some id)
      ↔ ((row.admin_id ≡ id) × (now < row.expires_at))
unfolding use_row
use_row-live now id token row sessions = elim (Bool-cases (leb row.expires_at now)) [
  | inl over ↦ rw over (ground (arith, over))
  | inr still ↦
      rw still (λ e. (some-injective row.admin_id id e, ground (arith, still)), λ h. ap some h.0)
]

pub check_session-row :
    (hmac_hex : Text → Text) (now : ℕ) (cookie : Option Text) (token : Text) (row : Session)
    (sessions : List (Text × Session))
    → signed_token hmac_hex cookie ≡ some token
    → lookup token sessions ≡ some row
    → check_session hmac_hex now cookie sessions ≡ use_row now token row sessions
unfolding check_session
check_session-row hmac_hex now cookie token row sessions e f = rw (check_session, e, f) refl

check_session-unsigned :
    (hmac_hex : Text → Text) (now : ℕ) (cookie : Option Text) (sessions : List (Text × Session))
    → signed_token hmac_hex cookie ≡ none
    → check_session hmac_hex now cookie sessions ≡ (sessions, none)
unfolding check_session
check_session-unsigned hmac_hex now cookie sessions e = rw (check_session, e) refl

check_session-missing :
    (hmac_hex : Text → Text) (now : ℕ) (cookie : Option Text) (token : Text)
    (sessions : List (Text × Session))
    → signed_token hmac_hex cookie ≡ some token
    → lookup token sessions ≡ none
    → check_session hmac_hex now cookie sessions ≡ (sessions, none)
unfolding check_session
check_session-missing hmac_hex now cookie token sessions e f = rw (check_session, e, f) refl

-- `checkSession` answers with an admin exactly when the cookie is a token with its own signature
-- and the table holds an unexpired row of that admin under the token.
pub check_session_iff :
    (hmac_hex : Text → Text) (now id : ℕ) (cookie : Option Text) (sessions : List (Text × Session))
    → ((check_session hmac_hex now cookie sessions).1 ≡ some id) ↔ (
        (token : Text) × (cookie ≡ some (cookie_of hmac_hex token))
        × Lacks b'.' token
        × IsLive token id now sessions)
check_session_iff hmac_hex now id cookie sessions = (
  λ e. elim (Option-cases (signed_token hmac_hex cookie)) [
    | inl gone ↦ ground (arith, rw (check_session-unsigned hmac_hex now cookie sessions gone) at e)
    | inr (token, signed) ↦ elim (Option-cases (lookup token sessions)) [
      | inl gone ↦
          ground
            (arith, rw (check_session-missing hmac_hex now cookie token sessions signed gone) at e)
      | inr (row, found) ↦
          let (is_cookie, lacks) = signed_token-signed hmac_hex cookie token signed in
          let live =
            (use_row-live now id token row sessions).0
              (rw (check_session-row hmac_hex now cookie token row sessions signed found) at e) in
          (token, is_cookie, lacks, (row, found, live.0, live.1))
    ]
  ],
  λ h.
      let (token, is_cookie, lacks, (row, found, of_admin, unexpired)) = h in
      let signed : signed_token hmac_hex cookie ≡ some token =
        rw is_cookie (signed_token-cookie_of hmac_hex token lacks) in
      rw (check_session-row hmac_hex now cookie token row sessions signed found)
        ((use_row-live now id token row sessions).1 (of_admin, unexpired)),
)

handle_logout-row :
    (hmac_hex : Text → Text) (token : Text) (sessions : List (Text × Session))
    → Lacks b'.' token
    → handle_logout (some (cookie_of hmac_hex token)) sessions ≡ remove token sessions
unfolding handle_logout
handle_logout-row hmac_hex token sessions h =
    rw (handle_logout, cut-append b'.' token (hmac_hex token) h) refl

-- After a logout with a token's cookie the token's cookie is refused, and the row of any other token
-- stays.
pub logout_ends :
    (hmac_hex : Text → Text) (token : Text) (now : ℕ) (sessions : List (Text × Session))
    (other : Text)
    → Lacks b'.' token
    → other ≢ token
    → ((check_session hmac_hex now
          (some (cookie_of hmac_hex token))
          (handle_logout (some (cookie_of hmac_hex token)) sessions)).1
        ≡ none)
      × (lookup other (handle_logout (some (cookie_of hmac_hex token)) sessions)
          ≡ lookup other sessions)
logout_ends hmac_hex token now sessions other h apart =
    let gone = handle_logout-row hmac_hex token sessions h in
    let unknown : lookup token (remove token sessions) ≡ none =
      ground (arith, lookup-remove token token sessions, text_eq_refl token) in
    rw gone (
      ap (λ (x : List (Text × Session) × Option ℕ). x.1)
          (check_session-missing hmac_hex now (some (cookie_of hmac_hex token)) token
            (remove token sessions) (signed_token-cookie_of hmac_hex token h) unknown),
      ground (arith, apart, lookup-remove token other sessions, text_eq_iff token other),
    )
