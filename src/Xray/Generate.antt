-- ===== src/Xray/Generate.antt =====
-- internal/xray/generate.go: the configuration of xray from the tables of the panel. The decoder of
-- JSON is a parameter; a database that fails is left out.
pub mod Served
pub mod Lawful
pub mod Complete
use hexplus_v.Base.{
  ℕ, zero, suc, ◌+◌, ◌-◌, ◌*◌, ◌/◌, ◌%◌, ◌^◌, ◌≤◌, ◌<◌, ◌≡◌, refl, sym, ap, ◌∙◌, ◌≢◌, ◌↔◌, ◌⊎◌, inl,
  inr, Bool, true, false, ◌&&◌, ◌||◌, not, Option, none, some, List, [], ◌∷◌, ◌++◌, map,
  append_assoc, append-nil, arith, ltb, leb, ◌==◌, if◌then◌else◌, Bool-cases, Option-cases, length,
  take, drop, keep, any, tally, length-append, take-append-drop, length-drop, keep-append, All,
  All-append, All-imp, All-join,
}
use hexplus_v.Base.Int.{ℤ, pos, ltb_ℤ, eqb_ℤ}
use hexplus_v.Base.Order.{sort}
use hexplus_v.Panel.Rows.{ClientRow, InboundRow, Tables}
use hexplus_v.Xray.Config.{
  Decoder, Inbound, Outbound, RoutingRule, Config, OutboundRow, RuleRow, field_text, field_number,
}
use hexplus_v.Text.{Text, codes, text_eq}
use hexplus_v.Text.Lines.{newline, split}
use hexplus_v.Xray.Transport.{
  TransportParams, StreamSetting, Built, ok, err, build_stream_setting, is_empty, no_params,
}
use hexplus_v.Xray.Settings.{
  Settings, address_only, build_vless_settings, build_vmess_settings, build_trojan_settings,
  build_ss_settings, build_hysteria2_settings, build_wireguard_settings, build_http_settings,
  build_socks_settings, build_dokodemo_settings,
}

-- `splitNL`, an absent list as the empty one
unfoldable pub split_nl : Text → List Text
split_nl s = keep (λ l. not (is_empty l)) (split newline s)

abbrev pub flow_for : TransportParams → Text
flow_for tp = if text_eq tp.security (codes "reality") then codes "xtls-rprx-vision" else []

-- `loadClients`
abbrev pub load_clients : List ClientRow → ℕ → List ClientRow
load_clients clients id = keep (λ c. c.inbound_id == id) clients

module _ (decoder : Decoder) where
  -- `extractString`
  unfoldable pub extract_string : Text → Text → Text → Text
  extract_string raw key fallback =
      if is_empty raw then fallback else field_text (decoder.object raw) key fallback

  -- `extractInt`
  unfoldable pub extract_int : Text → Text → ℤ → ℤ
  extract_int raw key fallback =
      if is_empty raw then fallback else field_number (decoder.object raw) key fallback

  -- The stored parameters of the transport.
  unfoldable pub stored_params : Text → Option TransportParams
  stored_params raw =
      if not (is_empty raw) && not (text_eq raw (codes "{}"))
      then decoder.stream raw
      else some no_params

  abbrev wireguard_for : Text → List ClientRow → Option Settings
  wireguard_for secret cs =
      if is_empty secret then none else some (build_wireguard_settings secret cs)

  abbrev dokodemo_for : InboundRow → ℤ → Option Settings
  dokodemo_for i port =
      if eqb_ℤ port (pos 0)
      then none
      else some (
          build_dokodemo_settings (extract_string i.settings (codes "address") (codes "127.0.0.1"))
            port (extract_string i.settings (codes "network") (codes "tcp,udp")))

  -- The dispatch of `buildInbound` on the protocol.
  unfoldable pub settings_for : InboundRow → TransportParams → List ClientRow → Option Settings
  unfolding extract_string extract_int
  settings_for i tp cs =
      if text_eq i.protocol (codes "vless")
      then some (build_vless_settings cs (flow_for tp))
      else if text_eq i.protocol (codes "vmess")
      then some (build_vmess_settings cs)
      else if text_eq i.protocol (codes "trojan")
      then some (build_trojan_settings cs (flow_for tp))
      else if text_eq i.protocol (codes "shadowsocks")
      then some
          (build_ss_settings (extract_string i.settings (codes "method") (codes "aes-256-gcm")) cs)
      else if text_eq i.protocol (codes "hysteria2")
      then some (build_hysteria2_settings cs)
      else if text_eq i.protocol (codes "wireguard")
      then wireguard_for (extract_string i.settings (codes "secretKey") []) cs
      else if text_eq i.protocol (codes "http")
      then some (build_http_settings cs)
      else if text_eq i.protocol (codes "socks")
      then some (build_socks_settings cs)
      else if text_eq i.protocol (codes "dokodemo-door")
      then dokodemo_for i (extract_int i.settings (codes "port") (pos 0))
      else none

  abbrev pub inbound_of : InboundRow → StreamSetting → Settings → Inbound
  inbound_of i stream settings = record {
    tag = i.tag;
    listen = i.listen;
    port = i.port;
    protocol = i.protocol;
    settings = settings;
    stream_settings = some stream;
    sniffing = if i.sniffing then some (codes "http" ∷ codes "tls" ∷ codes "quic" ∷ []) else none;
  }

  abbrev pub inbound_with : InboundRow → StreamSetting → Option Settings → Option Inbound
  inbound_with i stream none = none
  inbound_with i stream (some settings) = some (inbound_of i stream settings)

  abbrev pub build_behind :
      InboundRow → List ClientRow → TransportParams → Built StreamSetting → Option Inbound
  build_behind i cs tp (err e) = none
  build_behind i cs tp (ok stream) = inbound_with i stream (settings_for i tp cs)

  abbrev pub build_with : InboundRow → List ClientRow → Option TransportParams → Option Inbound
  build_with i cs none = none
  build_with i cs (some tp) = build_behind i cs tp (build_stream_setting tp)

  -- `buildInbound`
  unfoldable pub build_inbound : List ClientRow → InboundRow → Option Inbound
  unfolding stored_params settings_for
  build_inbound clients i = build_with i (load_clients clients i.id) (stored_params i.stream)

  abbrev pub with_built : Option Inbound → List Inbound → List Inbound
  with_built none out = out
  with_built (some built) out = built ∷ out

  -- The loop over the enabled inbounds: a broken one is skipped.
  unfoldable pub build_inbounds : List ClientRow → List InboundRow → List Inbound
  unfolding build_inbound
  build_inbounds clients [] = []
  build_inbounds clients (i ∷ is) = with_built (build_inbound clients i) (build_inbounds clients is)

  -- One row of `appendUserOutbounds`.
  unfoldable pub user_outbound : OutboundRow → Outbound
  user_outbound o = record {
    tag = o.tag;
    protocol = o.protocol;
    settings = if is_empty o.settings then none else decoder.object o.settings;
  }

  -- One row of `appendUserRoutingRules`.
  unfoldable pub user_rule : RuleRow → RoutingRule
  unfolding split_nl
  user_rule r = record {
    kind = codes "field";
    inbound_tag = if is_empty r.inbound_tag then [] else r.inbound_tag ∷ [];
    domain = split_nl r.domains;
    ip = split_nl r.ips;
    protocol = split_nl r.protocols;
    port = r.port_range;
    outbound_tag = r.outbound_tag;
  }

  -- The inbound that the poller of the statistics connects to.
  abbrev pub api_inbound : Inbound
  api_inbound = record {
    tag = codes "api";
    listen = codes "127.0.0.1";
    port = 10085;
    protocol = codes "dokodemo-door";
    settings = address_only (codes "127.0.0.1");
    stream_settings = none;
    sniffing = none;
  }

  abbrev pub api_rule : RoutingRule
  api_rule = record {
    kind = codes "field";
    inbound_tag = codes "api" ∷ [];
    domain = [];
    ip = [];
    protocol = [];
    port = [];
    outbound_tag = codes "api";
  }

  abbrev direct : Outbound
  direct = record { tag = codes "direct"; protocol = codes "freedom"; settings = none }

  abbrev block : Outbound
  block = record { tag = codes "block"; protocol = codes "blackhole"; settings = none }

  abbrev pub by_priority : RuleRow → RuleRow → Bool
  by_priority a b = ltb_ℤ a.priority b.priority

  -- `Generate`: the configuration, and how many inbounds were built
  unfoldable pub generate : Tables → List OutboundRow → List RuleRow → Config × ℕ
  unfolding build_inbounds user_outbound user_rule
  generate t outs rules =
      let built = build_inbounds t.clients (keep (λ i. i.enabled) t.inbounds) in
      (
        record {
          loglevel = codes "warning";
          api_tag = codes "api";
          api_services = codes "HandlerService" ∷ codes "LoggerService" ∷ codes "StatsService" ∷ [];
          user_stats = (true, true);
          system_stats = (true, true, true, true);
          inbounds = api_inbound ∷ built;
          outbounds =
              direct ∷ block ∷ map user_outbound (keep (λ (o : OutboundRow). o.enabled) outs);
          domain_strategy = codes "AsIs";
          rules =
              api_rule ∷ map user_rule (sort by_priority (keep (λ (r : RuleRow). r.enabled) rules));
        },
        length built,
      )
