-- ===== src/Xray/Config.antt =====
-- internal/xray/config.go and generate.go: the configuration, the rows it is made of, and what the
-- decoder of JSON gives, which is a parameter.
use hexplus_v.Base.{ℕ, Bool, Option, none, some, List}
use hexplus_v.Base.Int.{ℤ}
use hexplus_v.Text.{Text}
use hexplus_v.Maps.{lookup}
use hexplus_v.Xray.Transport.{TransportParams, StreamSetting}
use hexplus_v.Xray.Settings.{Settings}

-- A decoded JSON value, a number by its integer part.
pub data Json : Type 0 where
  text : Text → Json
  number : ℤ → Json
  other : Json

abbrev pub Object : Type 0
Object = List (Text × Json)

-- `json.Unmarshal` into a map and into `TransportParams`.
pub record Decoder : Type 0 where
  pub object : Text → Option Object
  pub stream : Text → Option TransportParams

pub record Inbound : Type 0 where
  pub tag : Text
  pub listen : Text
  pub port : ℕ
  pub protocol : Text
  pub settings : Settings
  pub stream_settings : Option StreamSetting
  pub sniffing : Option (List Text)

pub record Outbound : Type 0 where
  pub tag : Text
  pub protocol : Text
  pub settings : Option Object

pub record RoutingRule : Type 0 where
  pub kind : Text
  pub inbound_tag : List Text
  pub domain : List Text
  pub ip : List Text
  pub protocol : List Text
  pub port : Text
  pub outbound_tag : Text

-- `Config`; the statistics of the users at level 0 and of the system are the flags of `PolicyConfig`
pub record Config : Type 0 where
  pub loglevel : Text
  pub api_tag : Text
  pub api_services : List Text
  pub user_stats : Bool × Bool
  pub system_stats : Bool × Bool × Bool × Bool
  pub inbounds : List Inbound
  pub outbounds : List Outbound
  pub domain_strategy : Text
  pub rules : List RoutingRule

-- The rows of the tables `outbounds` and `routing_rules`, in the order of their ids.
pub record OutboundRow : Type 0 where
  pub tag : Text
  pub protocol : Text
  pub settings : Text
  pub enabled : Bool

pub record RuleRow : Type 0 where
  pub priority : ℤ
  pub outbound_tag : Text
  pub inbound_tag : Text
  pub domains : Text
  pub ips : Text
  pub protocols : Text
  pub port_range : Text
  pub enabled : Bool

abbrev pub text_of : Option Json → Text → Text
text_of (some (text v)) fallback = v
text_of _ fallback = fallback

abbrev pub number_of : Option Json → ℤ → ℤ
number_of (some (number n)) fallback = n
number_of _ fallback = fallback

abbrev pub field_text : Option Object → Text → Text → Text
field_text none key fallback = fallback
field_text (some m) key fallback = text_of (lookup key m) fallback

abbrev pub field_number : Option Object → Text → ℤ → ℤ
field_number none key fallback = fallback
field_number (some m) key fallback = number_of (lookup key m) fallback
