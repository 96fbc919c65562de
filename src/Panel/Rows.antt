-- ===== src/Panel/Rows.antt =====
-- internal/panel: the rows of the tables `inbounds` and `clients`. An id is the number that the
-- database gives.
use hexplus_v.Base.{ℕ, Bool, List}
use hexplus_v.Base.Int.{ℤ}
use hexplus_v.Text.{Text}

pub record ClientRow : Type 0 where
  pub id : ℕ
  pub inbound_id : ℕ
  pub email : Text
  pub protocol : Text
  pub uuid : Text
  pub password : Text
  pub shared_key : Text
  pub quota_bytes : ℤ
  pub used_bytes : ℕ
  pub ip_limit : ℤ
  pub expires_at : ℤ
  pub enabled : Bool
  pub sub_token : Text
  pub created_at : ℕ
  pub updated_at : ℕ

pub record InboundRow : Type 0 where
  pub id : ℕ
  pub tag : Text
  pub protocol : Text
  pub listen : Text
  pub port : ℕ
  pub settings : Text
  pub stream : Text
  pub sniffing : Bool
  pub enabled : Bool
  pub remark : Text
  pub total_up : ℕ
  pub total_down : ℕ
  pub created_at : ℕ
  pub updated_at : ℕ

-- The tables, in the order of their ids, and the last ids that were given.
pub record Tables : Type 0 where
  pub inbounds : List InboundRow
  pub clients : List ClientRow
  pub last_inbound : ℕ
  pub last_client : ℕ
