-- ===== src/Panel/Security.antt =====
-- internal/panel/security.go: the login rate limit with its bans, and the CSRF check. Times are
-- numbers; the mutex makes each method one step.
pub mod Isolated
pub mod Bans
pub mod Csrf
use hexplus_v.Base.{
  ℕ, ◌+◌, Bool, true, false, ◌&&◌, ◌||◌, not, Option, none, some, List, [], ◌∷◌, ◌++◌, ltb, leb,
  if◌then◌else◌, length, keep,
}
use hexplus_v.Maps.{lookup, insert, remove}
use hexplus_v.Text.{Text, codes, text_eq, has_prefix}

pub record LoginRateLimit : Type 0 where
  pub failures : ℕ
  pub window : ℕ
  pub ban_duration : ℕ

pub record IpTracker : Type 0 where
  pub failures : List (Text × List ℕ)
  pub banned : List (Text × ℕ)
  pub limit : LoginRateLimit

-- `newIPTracker`
abbrev pub new_ip_tracker : LoginRateLimit → IpTracker
new_ip_tracker limit = record { failures = []; banned = []; limit = limit }

-- `isBanned`, at a time
unfoldable pub is_banned : Text → ℕ → IpTracker → IpTracker × Bool
is_banned ip now t = elim (lookup ip t.banned) [
  | none ↦ (t, false)
  | some until ↦
      if ltb now until then (t, true) else (record t { banned = remove ip t.banned }, false)
]

abbrev pub times_of : Text → List (Text × List ℕ) → List ℕ
times_of ip m = elim (lookup ip m) [ none ↦ [] | some at ↦ at ]

-- `at.After(now - window)`
abbrev pub is_recent : ℕ → ℕ → ℕ → Bool
is_recent window now at = ltb now (at + window)

-- `recordFailure`, at a time
unfoldable pub record_failure : Text → ℕ → IpTracker → IpTracker × Bool
record_failure ip now t =
    let trimmed = keep (is_recent t.limit.window now) (times_of ip t.failures) ++ now ∷ [] in
    if leb t.limit.failures (length trimmed)
    then (
      record t {
        failures = remove ip t.failures;
        banned = insert ip (now + t.limit.ban_duration) t.banned;
      },
      true,
    )
    else (record t { failures = insert ip trimmed t.failures }, false)

-- `clearFailures`
unfoldable pub clear_failures : Text → IpTracker → IpTracker
clear_failures ip t = record t { failures = remove ip t.failures }

-- `isMutation`
unfoldable pub is_mutation : Text → Bool
is_mutation method =
    text_eq method (codes "POST")
    || text_eq method (codes "PUT")
    || text_eq method (codes "PATCH")
    || text_eq method (codes "DELETE")

-- `csrfExempt`
unfoldable pub csrf_exempt : Text → Bool
csrf_exempt path = text_eq path (codes "/login") || has_prefix (codes "/sub/") path

-- A request: the value of the CSRF cookie, `none` without one, and of the header, "" without one.
pub record Request : Type 0 where
  pub cookie : Option Text
  pub header : Text
  pub method : Text
  pub path : Text

-- What `wrapCSRF` does: the cookie that it sets, and whether the request goes on.
pub record Verdict : Type 0 where
  pub set_cookie : Option Text
  pub passes : Bool

abbrev pub cookie_value : Option Text → Text
cookie_value none = []
cookie_value (some v) = v

-- `wrapCSRF`; `fresh` is the token that `newCSRFToken` would draw.
unfoldable pub wrap_csrf : Text → Request → Verdict
unfolding is_mutation csrf_exempt
wrap_csrf fresh r =
    let issue = text_eq (cookie_value r.cookie) [] in
    let token = if issue then fresh else cookie_value r.cookie in
    record {
      set_cookie = if issue then some fresh else none;
      passes =
          if is_mutation r.method && not (csrf_exempt r.path)
          then not (text_eq r.header [] || not (text_eq r.header token))
          else true;
    }
