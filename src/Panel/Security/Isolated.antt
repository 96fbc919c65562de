-- ===== src/Panel/Security/Isolated.antt =====
-- internal/panel/security.go: that an address is judged by its own calls only.
use hexplus_v.Base.{ℕ, ◌+◌, ◌≡◌, refl, ◌∙◌, ◌≢◌, Option, List, [], ◌∷◌, ◌++◌, arith, keep, All}
use hexplus_v.Maps.{lookup, remove, lookup-insert, lookup-remove}
use hexplus_v.Panel.Security.{
  LoginRateLimit, IpTracker, is_banned, is_recent, times_of, record_failure, clear_failures,
}
use hexplus_v.Text.{Text, text_eq_iff}

-- What the tracker is asked to do, at a time.
pub data Call : Type 0 where
  ask fail : Text → ℕ → Call
  clear : Text → Call

abbrev pub caller : Call → Text
caller (ask ip _) = ip
caller (fail ip _) = ip
caller (clear ip) = ip

abbrev pub apply : Call → IpTracker → IpTracker
apply (ask ip now) t = (is_banned ip now t).0
apply (fail ip now) t = (record_failure ip now t).0
apply (clear ip) t = clear_failures ip t

abbrev pub apply_all : List Call → IpTracker → IpTracker
apply_all [] t = t
apply_all (c ∷ cs) t = apply_all cs (apply c t)

-- All that the tracker knows of one address.
abbrev pub view : Text → IpTracker → List ℕ × Option ℕ × LoginRateLimit
view ip t = (times_of ip t.failures, lookup ip t.banned, t.limit)

times_of-cong :
    (ip : Text) (m n : List (Text × List ℕ))
    → lookup ip m ≡ lookup ip n
    → times_of ip m ≡ times_of ip n
times_of-cong ip m n e = rw (times_of, e) refl

ask_isolated :
    (ip from : Text) (now : ℕ) (t : IpTracker)
    → from ≢ ip
    → lookup ip (is_banned from now t).0.banned ≡ lookup ip t.banned
unfolding is_banned
ask_isolated ip from now t h =
    ground (arith, h, text_eq_iff from ip, lookup-remove from ip t.banned)

fail_isolated :
    (ip from : Text) (now : ℕ) (t : IpTracker)
    → from ≢ ip
    → (lookup ip (record_failure from now t).0.banned ≡ lookup ip t.banned)
      × (lookup ip (record_failure from now t).0.failures ≡ lookup ip t.failures)
unfolding record_failure
fail_isolated ip from now t h =
    let trimmed = keep (is_recent t.limit.window now) (times_of from t.failures) ++ now ∷ [] in
    ground (
      arith,
      h,
      text_eq_iff from ip,
      lookup-remove from ip t.failures,
      lookup-insert from ip trimmed t.failures,
      lookup-insert from ip (now + t.limit.ban_duration) t.banned,
    )

ask-others :
    (ip : Text) (now : ℕ) (t : IpTracker)
    → ((is_banned ip now t).0.failures ≡ t.failures) × ((is_banned ip now t).0.limit ≡ t.limit)
unfolding is_banned
ask-others ip now t = ground arith

pub fail-limit : (ip : Text) (now : ℕ) (t : IpTracker) → (record_failure ip now t).0.limit ≡ t.limit
unfolding record_failure
fail-limit ip now t = ground arith

step_isolated :
    (ip : Text) (c : Call) (t : IpTracker) → caller c ≢ ip → view ip (apply c t) ≡ view ip t
unfolding clear_failures
step_isolated ip (ask from now) t h =
    let (log, kept) = ask-others from now t in
    λ i. (times_of ip (log i), ask_isolated ip from now t h i, kept i)
step_isolated ip (fail from now) t h =
    let (bans, log) = fail_isolated ip from now t h in
    λ i. (
      times_of-cong ip (record_failure from now t).0.failures t.failures log i,
      bans i,
      fail-limit from now t i,
    )
step_isolated ip (clear from) t h =
    let log : lookup ip (remove from t.failures) ≡ lookup ip t.failures =
      ground (arith, h, text_eq_iff from ip, lookup-remove from ip t.failures) in
    λ i. (times_of-cong ip (remove from t.failures) t.failures log i, lookup ip t.banned, t.limit)

-- Calls for other addresses change nothing that the tracker knows of an address.
pub apply_all_isolated :
    (ip : Text) (cs : List Call) (t : IpTracker)
    → All (λ c. caller c ≢ ip) cs
    → view ip (apply_all cs t) ≡ view ip t
apply_all_isolated ip [] t _ = refl
apply_all_isolated ip (c ∷ cs) t (h, hs) =
    apply_all_isolated ip cs (apply c t) hs ∙ step_isolated ip c t h
