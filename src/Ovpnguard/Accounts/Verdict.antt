-- ===== src/Ovpnguard/Accounts/Verdict.antt =====
-- internal/ovpnguard/run.go: whom `loadPolicy` refuses, and how many sessions it allows.
use hexplus_v.Base.{
  ℕ, ◌≡◌, refl, ◌≢◌, ◌↔◌, inl, inr, true, false, ◌&&◌, ◌||◌, not, Option, none, some, List, [], ◌∷◌,
  arith, if◌then◌else◌, Bool-cases,
}
use hexplus_v.Base.Int.{ℤ, pos, ltb_ℤ, eqb_ℤ, ◌<ℤ◌}
use hexplus_v.Base.Order.{sort}
use hexplus_v.Maps.{lookup}
use hexplus_v.Ovpnguard.Decide.{Session, before, decide, judge, judge_all, sessions_of}
use hexplus_v.Ovpnguard.Accounts.{
  v2_limits, Sources, ShadowEntry, refusal, expiry_refusal, is_locked, deleted, locked, expired,
  load_policy, load_limit, load_refusal, single, limit_for, read_v1_limits,
}
use hexplus_v.Text.{Text, codes, text_eq, text_eq_iff}
use hexplus_v.Text.Number.{ParsedInt, int_value, int_syntax, int_range, parse_int}

-- A password that can match: not empty, and not behind a `!` or a `*`.
abbrev pub IsUnlocked : Text → Type 0
IsUnlocked h = (c : ℕ) × (r : Text) × (h ≡ c ∷ r) × (c ≢ b'!') × (c ≢ b'*')

-- The expiry day, where the field is a number other than -1, lies ahead.
abbrev pub IsOpen : Text → ℤ → Type 0
IsOpen exp today = (day : ℤ) → parse_int exp ≡ int_value day → exp ≢ codes "-1" → today <ℤ day

-- The account may have sessions.
abbrev pub IsAllowed : Text → Option (List (Text × ShadowEntry)) → ℤ → Type 0
IsAllowed name none today = Unit {0}
IsAllowed name (some shadow) today =
    (e : ShadowEntry) × (lookup name shadow ≡ some e) × IsUnlocked e.hash × IsOpen e.expiry today

IsUnlocked-of : (h : Text) → is_locked h ≡ false → IsUnlocked h
unfolding is_locked
IsUnlocked-of [] e = cc
IsUnlocked-of (c ∷ r) e = (c, r, refl, ground arith, ground arith)

not_locked : (h : Text) → IsUnlocked h → is_locked h ≡ false
unfolding is_locked
not_locked h (c, r, e, p, q) = rw e (ground arith)

locked-ne-nil : locked ≢ []
locked-ne-nil = λ h. cc

number-ne-nil : (exp : Text) {day : ℤ} → parse_int exp ≡ int_value day → text_eq exp [] ≡ false
unfolding parse_int text_eq
number-ne-nil [] e = cc
number-ne-nil (c ∷ exp) e = refl

IsOpen-of : (exp : Text) (today : ℤ) → expiry_refusal exp today ≡ [] → IsOpen exp today
unfolding expiry_refusal
IsOpen-of exp today h day e ne =
    let refused : (if text_eq exp (codes "-1") then [] else if ltb_ℤ today day then [] else expired)
        ≡ [] =
      rw (number-ne-nil exp e, e) at h in
    ground (arith, refused, text_eq_iff exp (codes "-1"))

not_expired : (exp : Text) (today : ℤ) → IsOpen exp today → expiry_refusal exp today ≡ []
unfolding expiry_refusal
not_expired exp today h = elim (Bool-cases (text_eq exp [] || text_eq exp (codes "-1"))) [
  | inl e ↦ rw e
  | inr e ↦
      rw e
        (by_day (parse_int exp) (λ day p. h day p (ground (arith, text_eq_iff exp (codes "-1")))))
]
  where
    by_day :
        (n : ParsedInt)
        → ((day : ℤ) → n ≡ int_value day → today <ℤ day)
        → ◌≡◌ {A = Text}
            (elim n [
              | int_value day ↦ if ltb_ℤ today day then [] else expired
              | int_syntax ↦ []
              | int_range _ ↦ []
            ])
            []
    by_day (int_value day) open_day = ground (arith, open_day day refl)
    by_day int_syntax _ = refl
    by_day (int_range _) _ = refl

-- `refusal` finds no reason exactly when the account may have sessions: /etc/shadow could not be
-- read, or it has the account, with a usable password and an expiry that does not lie behind.
pub refusal_iff :
    (name : Text) (shadow : Option (List (Text × ShadowEntry))) (today : ℤ)
    → (refusal name shadow today ≡ []) ↔ IsAllowed name shadow today
unfolding refusal
refusal_iff name none today = (λ h. tt, λ h. refl)
refusal_iff name (some shadow) today = (allowed_of, not_refused)
  where
    by_entry :
        (o : Option ShadowEntry)
        → ◌≡◌ {A = Text}
            (elim o [
              | none ↦ deleted
              | some e ↦ if is_locked e.hash then locked else expiry_refusal e.expiry today
            ])
            []
        → (e : ShadowEntry) × (o ≡ some e) × IsUnlocked e.hash × IsOpen e.expiry today
    by_entry none h = cc
    by_entry (some e) h = elim (Bool-cases (is_locked e.hash)) [
      | inl l ↦ absurd (locked-ne-nil (rw l at h))
      | inr u ↦ (e, refl, IsUnlocked-of e.hash u, IsOpen-of e.expiry today (rw u at h))
    ]

    allowed_of : refusal name (some shadow) today ≡ [] → IsAllowed name (some shadow) today
    allowed_of h = by_entry (lookup name shadow) h

    not_refused : IsAllowed name (some shadow) today → refusal name (some shadow) today ≡ []
    not_refused (e, found, unlocked, open_day) =
        rw (refusal, found, not_locked e.hash unlocked) (not_expired e.expiry today open_day)

-- MULTILOGIN off, in a configuration that can be read, holds every user to one session.
pub single_limit :
    (src : Sources) (name : Text) → single src.primary_conf ≡ true → load_limit src name ≡ pos 1
unfolding load_limit
single_limit src name h =
    rw h (one_at_most (limit_for name (v2_limits src.user_db) (read_v1_limits src.v1_db)))
  where
    one_at_most : (l : ℤ) → (if true && not (eqb_ℤ l (pos 1)) then pos 1 else l) ≡ pos 1
    one_at_most l = ground arith

-- Nothing can be read.
abbrev pub unreadable : ℕ → Sources
unreadable now = record {
  user_db = none;
  v1_db = none;
  shadow = none;
  primary_conf = none;
  unix_now = now;
}

lenient_judge :
    (now : ℕ) (n : Text) (ss : List Session) → judge (load_policy (unreadable now)) n ss ≡ []
unfolding judge load_policy load_limit load_refusal refusal limit_for read_v1_limits lookup
lenient_judge now n ss = refl

lenient_judge_all :
    (now : ℕ) (m : List (Text × List Session)) (ns : List Text)
    → judge_all (load_policy (unreadable now)) m ns ≡ []
unfolding judge_all
lenient_judge_all now m [] = refl
lenient_judge_all now m (n ∷ ns) =
    rw (lenient_judge now n (sort before (sessions_of n m)), lenient_judge_all now m ns)

-- A guard that can read no account file and no configuration ends no session.
pub unreadable_ends_none :
    (ss : List Session) (now : ℕ) → decide ss (load_policy (unreadable now)) ≡ []
unfolding decide
unreadable_ends_none ss now = lenient_judge_all now _ _
