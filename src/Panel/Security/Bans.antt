-- ===== src/Panel/Security/Bans.antt =====
-- internal/panel/security.go: when an address is banned, and for how long.
use hexplus_v.Base.{
  ℕ, suc, ◌+◌, ◌≤◌, ◌<◌, ◌≡◌, refl, sym, ap, ◌∙◌, ◌≢◌, ◌↔◌, Bool, true, false, Option, some, List,
  [], ◌∷◌, ◌++◌, append_assoc, append-nil, arith, ltb, leb, length, keep, tally, length-append,
  keep-append, All,
}
use hexplus_v.Maps.{lookup, lookup-insert}
use hexplus_v.Panel.Security.{
  LoginRateLimit, IpTracker, new_ip_tracker, is_banned, is_recent, times_of, record_failure,
}
use hexplus_v.Text.{Text, text_eq_iff}
use hexplus_v.Panel.Security.Isolated.{Call, caller, apply_all, fail-limit, apply_all_isolated}

is_banned-lookup :
    (ip : Text) (now : ℕ) (t : IpTracker) (until : ℕ)
    → lookup ip t.banned ≡ some until
    → (is_banned ip now t).1 ≡ ltb now until
unfolding is_banned
is_banned-lookup ip now t until e = ground (arith, e)

record_failure-bans :
    (ip : Text) (now : ℕ) (t : IpTracker)
    → (record_failure ip now t).1 ≡ true
    → lookup ip (record_failure ip now t).0.banned ≡ some (now + t.limit.ban_duration)
unfolding record_failure
record_failure-bans ip now t h =
    ground (arith, h, text_eq_iff ip ip, lookup-insert ip ip (now + t.limit.ban_duration) t.banned)

-- A failure that bans its address bans it until `ban_duration` later and no longer, whatever the
-- other addresses do in between.
pub ban_lasts :
    (ip : Text) (now later : ℕ) (cs : List Call) (t : IpTracker)
    → (record_failure ip now t).1 ≡ true
    → All (λ c. caller c ≢ ip) cs
    → ((is_banned ip later (apply_all cs (record_failure ip now t).0)).1 ≡ true)
      ↔ (later < now + t.limit.ban_duration)
ban_lasts ip now later cs t h others =
    let until = now + t.limit.ban_duration in
    let kept =
      ap (λ (v : List ℕ × Option ℕ × LoginRateLimit). v.1)
        (apply_all_isolated ip cs (record_failure ip now t).0 others) in
    let e =
      is_banned-lookup ip later (apply_all cs (record_failure ip now t).0) until
        (kept ∙ record_failure-bans ip now t h) in
    rw e (ground arith)

-- The failures of one address, none of which bans it.
abbrev pub fail_all : Text → List ℕ → IpTracker → IpTracker
fail_all ip [] t = t
fail_all ip (now ∷ later) t = fail_all ip later (record_failure ip now t).0

abbrev pub NoBan : Text → List ℕ → IpTracker → Type 0
NoBan ip [] t = Unit
NoBan ip (now ∷ later) t =
    ((record_failure ip now t).1 ≡ false) × NoBan ip later (record_failure ip now t).0

-- Times that ascend from `first` to `last`.
abbrev pub Ascends : ℕ → List ℕ → ℕ → Type 0
Ascends first [] last = first ≤ last
Ascends first (now ∷ later) last = (first ≤ now) × Ascends now later last

-- From `since` on, the log of an address and its history have the same recent failures.
abbrev Tracks : Text → List ℕ → ℕ → IpTracker → Type 0
Tracks ip history since t =
    (now : ℕ)
    → since ≤ now
    → keep (is_recent t.limit.window now) (times_of ip t.failures)
      ≡ keep (is_recent t.limit.window now) history

keep_recent_twice :
    (w now later : ℕ) (xs : List ℕ)
    → now ≤ later
    → keep (is_recent w later) (keep (is_recent w now) xs) ≡ keep (is_recent w later) xs
keep_recent_twice w now later [] h = refl
keep_recent_twice w now later (x ∷ xs) h = ground (arith, h, keep_recent_twice w now later xs h)

record_failure-log :
    (ip : Text) (now : ℕ) (t : IpTracker)
    → (record_failure ip now t).1 ≡ false
    → times_of ip (record_failure ip now t).0.failures
      ≡ keep (is_recent t.limit.window now) (times_of ip t.failures) ++ now ∷ []
unfolding record_failure
record_failure-log ip now t h =
    let trimmed = keep (is_recent t.limit.window now) (times_of ip t.failures) ++ now ∷ [] in
    ground (arith, h, text_eq_iff ip ip, lookup-insert ip ip trimmed t.failures)

record_failure-Tracks :
    (ip : Text) (history : List ℕ) (since now : ℕ) (t : IpTracker)
    → (record_failure ip now t).1 ≡ false
    → since ≤ now
    → Tracks ip history since t
    → Tracks ip (history ++ now ∷ []) now (record_failure ip now t).0
record_failure-Tracks ip history since now t h order tracks later after =
    let w = t.limit.window in
    rw (fail-limit ip now t, record_failure-log ip now t h)
      (keep-append (is_recent w later) (keep (is_recent w now) (times_of ip t.failures)) (now ∷ [])
        ∙ ap (λ (l : List ℕ). l ++ keep (is_recent w later) (now ∷ []))
            (keep_recent_twice w now later (times_of ip t.failures) after
              ∙ tracks later (omega (arith, order, after)))
        ∙ sym (keep-append (is_recent w later) history (now ∷ [])))

fail_all-Tracks :
    (ip : Text) (history ts : List ℕ) (since last : ℕ) (t : IpTracker)
    → NoBan ip ts t
    → Ascends since ts last
    → Tracks ip history since t
    → (fail_all ip ts t).limit ≡ t.limit
      × (keep (is_recent t.limit.window last) (times_of ip (fail_all ip ts t).failures)
          ≡ keep (is_recent t.limit.window last) (history ++ ts))
fail_all-Tracks ip history [] since last t _ order tracks =
    (refl, rw (append-nil history) (tracks last order))
fail_all-Tracks ip history (now ∷ ts) since last t (h, hs) (order, orders) tracks =
    let (same, log) =
      fail_all-Tracks ip (history ++ now ∷ []) ts now last (record_failure ip now t).0 hs orders
        (record_failure-Tracks ip history since now t h order tracks) in
    (
      same ∙ fail-limit ip now t,
      rw (fail-limit ip now t, append_assoc history (now ∷ []) ts) at log,
    )

length-keep : (p : ℕ → Bool) (xs : List ℕ) → length (keep p xs) ≡ tally p xs
length-keep p [] = refl
length-keep p (x ∷ xs) = ground (arith, length-keep p xs)

record_failure_verdict :
    (ip : Text) (now : ℕ) (t : IpTracker)
    → (record_failure ip now t).1
      ≡ leb t.limit.failures
          (length (keep (is_recent t.limit.window now) (times_of ip t.failures) ++ now ∷ []))
unfolding record_failure
record_failure_verdict ip now t = ground arith

-- A sliding window over the whole history: after failures at ascending times, none of which banned
-- the address, one more bans it exactly when the limit is reached by this failure and those that
-- are younger than the window.
pub banned_by_window :
    (limit : LoginRateLimit) (ip : Text) (ts : List ℕ) (now : ℕ)
    → NoBan ip ts (new_ip_tracker limit)
    → Ascends 0 ts now
    → ((record_failure ip now (fail_all ip ts (new_ip_tracker limit))).1 ≡ true)
      ↔ (limit.failures ≤ suc (tally (λ at. ltb now (at + limit.window)) ts))
unfolding lookup
banned_by_window limit ip ts now quiet order =
    let t = fail_all ip ts (new_ip_tracker limit) in
    let recent = is_recent limit.window now in
    let (same, log) =
      fail_all-Tracks ip [] ts 0 now (new_ip_tracker limit) quiet order (λ later _. refl) in
    let size : length (keep recent ts ++ now ∷ []) ≡ suc (tally recent ts) =
      omega (arith, length-append (keep recent ts) (now ∷ []), length-keep recent ts) in
    rw (record_failure_verdict ip now t, same, log, size) (ground arith)
