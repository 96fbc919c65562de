-- ===== src/Ovpnspread/Shares.antt =====
-- internal/ovpnspread/ovpnspread.go: every process gets the same share of the connections.
use hexplus_v.Base.{
  ℕ, zero, suc, ◌+◌, ◌-◌, ◌*◌, ◌≤◌, ◌<◌, ◌≡◌, refl, inl, inr, List, [], ◌∷◌, arith, if◌then◌else◌,
  length, All,
}
use hexplus_v.Ovpnspread.{Plan, nat_rule, nat_rules, nat_rules_from}
use hexplus_v.Pki.Listening.{IsProto}
use hexplus_v.Text.{Text, codes, text_eq}
use hexplus_v.Text.Number.{max_u64, parse_uint, parse_uint-format, uint_value}

-- What `--every` says in a rule, 0 where it does not say anything.
every_of : List Text → ℕ
every_of [] = 0
every_of (w ∷ []) = 0
every_of (w ∷ v ∷ ws) =
    if text_eq w (codes "--every") then uint_value (parse_uint v) else every_of (v ∷ ws)

module _ (matched : ℕ → ℕ → ℕ) where
  -- How many connections each rule of a chain redirects, of so many that come to it, and how many
  -- pass all rules, last. `matched every k` is what a rule with `--mode nth --every` matches of the
  -- first `k` that reach it.
  pub redirected : List (List Text) → ℕ → List ℕ
  redirected [] k = k ∷ []
  redirected (r ∷ rs) k = matched (every_of r) k ∷ redirected rs (k - matched (every_of r) k)

  -- The documented match: of every group of `every` connections in a row one.
  abbrev pub IsNth : Type 0
  IsNth = (every rounds : ℕ) → 0 < every → matched every (rounds * every) ≡ rounds

  every_of-nat_rule :
      (proto : Text) (every w : ℕ)
      → IsProto proto
      → every ≤ max_u64
      → every_of (nat_rule proto every w) ≡ every
  unfolding nat_rule every_of text_eq
  every_of-nat_rule proto every w (inl e) h = rw e (rw (parse_uint-format every h) refl)
  every_of-nat_rule proto every w (inr e) h = rw e (rw (parse_uint-format every h) refl)

  abbrev pub IsShare : ℕ → List ℕ → Type 0
  IsShare rounds = All (λ k. k ≡ rounds)

  left_over : (rounds every : ℕ) → rounds * every - rounds ≡ rounds * (every - 1)
  left_over rounds zero = grind arith
  left_over rounds (suc every) = grind arith

  rules-IsShare :
      (proto : Text) (ws : List ℕ) (every rounds : ℕ)
      → IsNth
      → IsProto proto
      → every ≡ length ws + 1
      → every ≤ max_u64
      → IsShare rounds (redirected (nat_rules_from proto every ws) (rounds * every))
  unfolding redirected nat_rules_from
  rules-IsShare proto [] every rounds nth known e h = (rw e (omega arith), tt)
  rules-IsShare proto (w ∷ ws) every rounds nth known e h =
      rw (every_of-nat_rule proto every w known h, nth every rounds (omega (arith, e)))
        (
          refl,
          rw (left_over rounds every) (
              rules-IsShare proto ws (every - 1) rounds nth known (omega (arith, e)) (omega arith)),
        )

-- Where a rule with `--every` matches one of so many connections that reach it, every worker and the
-- primary, last, get the same number of the connections of the rules of a plan.
pub nat_rules-IsShare :
    (matched : ℕ → ℕ → ℕ) (p : Plan) (rounds : ℕ)
    → IsNth matched
    → IsProto p.proto
    → length p.workers + 1 ≤ max_u64
    → IsShare matched rounds (redirected matched (nat_rules p) (rounds * (length p.workers + 1)))
unfolding nat_rules
nat_rules-IsShare matched p rounds nth known h =
    rules-IsShare matched p.proto p.workers (length p.workers + 1) rounds nth known refl h
