-- ===== src/Tests/Guard.antt =====
-- internal/ovpnguard: the decision, the activity memory and the account files on a few sessions.
use hexplus_v.Base.{
  ℕ, ◌+◌, ◌-◌, ◌≡◌, refl, ◌↔◌, ◌⊎◌, false, Option, some, List, [], ◌∷◌, map, if◌then◌else◌, length,
  take, All,
}
use hexplus_v.Base.Int.{pos}
use hexplus_v.Ovpnguard.Activity.{mark, stale_after}
use hexplus_v.Ovpnguard.Activity.Idle.{memory, IsDead, mark_sound, GuardPass}
use hexplus_v.Ovpnguard.Accounts.{ShadowEntry, refusal}
use hexplus_v.Ovpnguard.Accounts.Verdict.{IsAllowed, refusal_iff}
use hexplus_v.Ovpnguard.Decide.{
  Session, Policy, before, decide, judge, kill_for, refusal_of, over_limit,
}
use hexplus_v.Ovpnguard.Decide.Grouping.{of_user, kills_of}
use hexplus_v.Ovpnguard.Decide.PerUser.{decide_per_user}
use hexplus_v.Ovpnguard.Decide.Verdicts.{ranked, limit_keeps_preferred}
use hexplus_v.Base.Order.{sort}
use hexplus_v.Text.{Text, codes, text_eq}

abbrev bob : Text
bob = codes "bob"

abbrev eve : Text
eve = codes "eve"

abbrev session : Text → ℕ → ℕ → Session
session name cid since = record {
  instance_name = codes "primary";
  cid = cid;
  name = name;
  since = pos since;
  real = codes "203.0.113.7:4000";
  rx_bytes = 10;
  stale = false;
}

abbrev online : List Session
online =
    session bob 1 100 ∷ session eve 2 150 ∷ session bob 3 200 ∷ session (codes "ann") 4 250 ∷ []

abbrev policy : Policy
policy = record {
  limit = some (λ n. if text_eq n (codes "ann") then pos 0 else pos 1);
  refused = some (λ n. if text_eq n (codes "eve") then codes "locked" else []);
}

decide-online : map (λ k. k.session.cid) (decide online policy) ≡ 1 ∷ 2 ∷ []
unfolding decide sort text_eq hexplus_v.Text.text_lt judge hexplus_v.Ovpnguard.Decide.sessions_of
    before
decide-online = refl

limit_keeps_preferred_example :
    (length (kills_of bob (decide online policy)) ≡ length (of_user bob online) - 1)
    × All
        (λ a. All (λ k. before k.session a ≡ false) (kills_of bob (decide online policy)))
        (take 1 (ranked bob online))
unfolding text_eq
limit_keeps_preferred_example = limit_keeps_preferred online policy bob (λ h. cc) refl 0 refl

decide_per_user_example :
    kills_of bob (decide online policy) ≡ judge policy bob (sort before (of_user bob online))
decide_per_user_example = decide_per_user online policy bob (λ h. cc)

abbrev passes : List GuardPass
passes = (10, online) ∷ (0, online) ∷ []

mark_sound_example :
    All
      (λ s. (s.stale ≡ false) ⊎ IsDead s ((stale_after + 10, online) ∷ passes) (stale_after + 10))
      (mark (memory passes) online (stale_after + 10)).0
mark_sound_example = mark_sound passes (stale_after + 10) online (refl, (refl, (refl, (refl, tt))))

abbrev shadow_of_bob : Option (List (Text × ShadowEntry))
shadow_of_bob = some ((codes "bob", record { hash = codes "$6$x"; expiry = codes "20000" }) ∷ [])

refusal_iff_example :
    (refusal bob shadow_of_bob (pos 20001) ≡ []) ↔ IsAllowed bob shadow_of_bob (pos 20001)
refusal_iff_example = refusal_iff bob shadow_of_bob (pos 20001)
