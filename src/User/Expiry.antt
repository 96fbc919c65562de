-- ===== src/User/Expiry.antt =====
-- internal/user/user.go: when an account expires, and what cleaning removes.
use hexplus_v.Base.{ℕ, zero, suc, ◌+◌, ◌*◌, ◌%◌, ◌^◌, ◌≤◌, ◌<◌, ◌≡◌, some, arith}
use hexplus_v.Base.Int.{pos}
use hexplus_v.User.{day, expiry_of, later, start_of_day}

later_small : (now d : ℕ) → d < 2 ^ 63 → later now (d % 2 ^ 64) ≡ now + d
unfolding later
later_small now d h = ground arith

-- The days that fit a `time.Duration`: for up to 106751 days the expiry is the beginning of the day
-- that many days after now. It is a whole day, not after now plus the days, and less than a day
-- before.
pub expiry_of_days :
    (now days : ℕ)
    → 0 < days
    → days ≤ 106751
    → (e : ℕ) × (expiry_of now (pos days) ≡ some e)
      × (e % day ≡ 0)
      × (e ≤ now + days * day)
      × (now + days * day < e + day)
unfolding expiry_of
expiry_of_days now zero h k = absurd (omega arith)
expiry_of_days now (suc n) h k = (
  start_of_day (now + suc n * day),
  (rw (later_small now (suc n * day) (omega arith))),
  omega arith,
  omega arith,
  omega arith,
)
