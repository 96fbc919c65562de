-- ===== src/Ovpnguard/Decide/Preference.antt =====
-- The order in which a user's sessions are kept: it is the order that `sort.Slice` asks for.
use hexplus_v.Base.{true, false, ◌≡◌, arith}
use hexplus_v.Base.Order.{StrictOrder}
use hexplus_v.Ovpnguard.Decide.{Session, before}
use hexplus_v.Text.{text_lt_asymm, text_not_lt_trans, text_lt_total, text_eq_iff}

before_asymm : (a b : Session) → before a b ≡ true → before b a ≡ false
unfolding before
before_asymm a b h = ground (
  arith,
  text_lt_asymm a.instance_name b.instance_name,
  text_eq_iff a.instance_name b.instance_name,
  text_eq_iff b.instance_name a.instance_name,
)

before_not_less_trans :
    (a b c : Session) → before b a ≡ false → before c b ≡ false → before c a ≡ false
unfolding before
before_not_less_trans a b c h k = ground (
  arith,
  text_not_lt_trans a.instance_name b.instance_name c.instance_name,
  text_lt_total a.instance_name b.instance_name,
  text_lt_total b.instance_name c.instance_name,
  text_lt_asymm b.instance_name a.instance_name,
  text_lt_asymm c.instance_name b.instance_name,
  text_eq_iff a.instance_name b.instance_name,
  text_eq_iff b.instance_name c.instance_name,
  text_eq_iff a.instance_name c.instance_name,
  text_eq_iff b.instance_name a.instance_name,
  text_eq_iff c.instance_name b.instance_name,
  text_eq_iff c.instance_name a.instance_name,
)

pub before-StrictOrder : StrictOrder Session before
before-StrictOrder = record { asymmetric = before_asymm; not_less_trans = before_not_less_trans }
