-- ===== src/Tests/Config.antt =====
-- internal/xray/generate.go and internal/panel/api_clients.go: a VLESS inbound with three clients.
use hexplus_v.Base.{
  Bool, ℕ, ◌+◌, ◌*◌, ◌≡◌, refl, inl, inr, true, false, ◌&&◌, not, none, some, List, [], ◌∷◌, map,
  arith, keep, any,
}
use hexplus_v.Base.Int.{pos, pos_part}
use hexplus_v.Base.Members.{In}
use hexplus_v.Panel.Rows.{ClientRow, InboundRow, Tables}
use hexplus_v.Panel.Enforcer.{enforce_once}
use hexplus_v.Panel.Clients.{extended, prolonged, extend_expiry}
use hexplus_v.Panel.Clients.Many.{
  BulkOp.toggle, BulkOp.reset, BulkOp.extend, BulkOp.delete, bulk_all,
}
use hexplus_v.Panel.Clients.Bulk.{
  IsReported, switched, is_listed, bulk_all-once, bulk_all-IsReported,
}
use hexplus_v.Panel.Clients.Extended.{max, extend_expiry-lasts}
use hexplus_v.Panel.Clients.Requests.{
  Request, Request.remove, Request.extend_by, Request.bulk_by, Request.sweep, handle_all,
}
use hexplus_v.Panel.Clients.Requests.Rows.{client_at}
use hexplus_v.Panel.Clients.Requests.After.{followed}
use hexplus_v.Panel.Clients.Requests.Followed.{handle_all-followed}
use hexplus_v.Text.{Text, codes}
use hexplus_v.Xray.Transport.{TransportParams, StreamSetting, ok, no_params, build_stream_setting}
use hexplus_v.Xray.Transport.Envelope.{
  is_ok, IsEnvelope, is_network, is_secured, build_stream_setting-IsEnvelope,
}
use hexplus_v.Xray.Settings.Secrets.{secrets}
use hexplus_v.Xray.Settings.{has_account, build_socks_settings, Settings.vless}
use hexplus_v.Xray.Generate.{generate, inbound_of}
use hexplus_v.Xray.Config.{Decoder, Inbound}
use hexplus_v.Xray.Generate.Served.{credential}
use hexplus_v.Xray.Generate.Lawful.{IsLawful, generate-IsLawful}
use hexplus_v.Panel.Enforcer.Sweep.{is_flipped}
use hexplus_v.Xray.Settings.Open.{is_open, enforce_once-is_open}
use mathlib.Core.Option.{some-injective}
use hexplus_v.Panel.Clients.{ClientInput}
use hexplus_v.Panel.Clients.Create.{Draws, create_client}
use hexplus_v.Panel.Clients.Created.{AreFilled, create_client_served}
use hexplus_v.Xray.Transport.{is_empty}
use hexplus_v.Xray.Generate.Complete.{generate_complete}

abbrev client : ℕ → Text → ℕ → ClientRow
client id uuid used = record {
  id = id;
  inbound_id = 1;
  email = uuid;
  protocol = codes "vless";
  uuid = uuid;
  password = codes "p";
  shared_key = [];
  quota_bytes = pos 100;
  used_bytes = used;
  ip_limit = pos 0;
  expires_at = pos 500;
  enabled = true;
  sub_token = codes "t";
  created_at = 0;
  updated_at = 0;
}

abbrev home : InboundRow
home = record {
  id = 1;
  tag = codes "in-1";
  protocol = codes "vless";
  listen = [];
  port = 443;
  settings = [];
  stream = codes "ws";
  sniffing = true;
  enabled = true;
  remark = [];
  total_up = 0;
  total_down = 0;
  created_at = 0;
  updated_at = 0;
}

abbrev rows : List ClientRow
rows = client 1 (codes "u1") 10 ∷ client 2 (codes "u2") 100 ∷ client 3 (codes "u3") 0 ∷ []

abbrev tables : Tables
tables = record { inbounds = home ∷ []; clients = rows; last_inbound = 1; last_client = 3 }

-- The stored stream of the row, decoded.
abbrev params : TransportParams
params = record no_params { network = codes "ws"; path = codes "/w"; security = codes "tls" }

abbrev decoder : Decoder
decoder = record { object = λ s. none; stream = λ s. some params }

build_stream_setting-IsEnvelope_example :
    (is_ok (build_stream_setting params) ≡ is_network params.network && is_secured params)
    × ((s : StreamSetting) → build_stream_setting params ≡ ok s → IsEnvelope params s)
unfolding hexplus_v.Xray.Transport.defaulted
build_stream_setting-IsEnvelope_example = build_stream_setting-IsEnvelope params

generate_complete_example :
    (b : Inbound) × In b (generate decoder tables [] []).0.inbounds
    × (b.tag ≡ codes "in-1")
    × In (credential (codes "vless") (client 3 (codes "u3") 0)) (secrets b.settings)
unfolding build_stream_setting hexplus_v.Xray.Generate.stored_params hexplus_v.Text.text_eq
generate_complete_example =
    generate_complete decoder tables [] [] home (client 3 (codes "u3") 0) params (inl refl) refl
      (inl refl) refl refl (inr (inr (inl refl))) refl refl

-- The second client is deleted, the third one is extended, reset and swept.
abbrev history : List (ℕ × Bool × Request)
history =
    (9, true, remove (codes "2"))
    ∷ (9, false, extend_by (codes "3") (some (pos 1)))
    ∷ (9, true, bulk_by (λ k. 10) (some reset) (3 ∷ 2 ∷ []))
    ∷ (600, true, sweep)
    ∷ []

handle_all-followed_example :
    client_at 3 (handle_all history tables).clients
    ≡ followed 3 history tables (some (client 3 (codes "u3") 0))
unfolding client_at
handle_all-followed_example = handle_all-followed history 3 tables (ground arith)

bulk_all-once_example :
    (bulk_all 9 (λ k. k) (toggle (some false)) (3 ∷ 1 ∷ 3 ∷ []) rows
      ≡ (map (switched 9 false (3 ∷ 1 ∷ 3 ∷ [])) rows, 3 ∷ 1 ∷ 3 ∷ [], []))
    × (bulk_all 9 (λ k. k) delete (3 ∷ 1 ∷ 3 ∷ []) rows
        ≡ (keep (λ c. not (is_listed (3 ∷ 1 ∷ 3 ∷ []) c)) rows, 3 ∷ 1 ∷ 3 ∷ [], []))
bulk_all-once_example = bulk_all-once 9 (λ k. k) false (3 ∷ 1 ∷ 3 ∷ []) rows

bulk_all-IsReported_example :
    IsReported (3 ∷ 7 ∷ []) rows (bulk_all 9 (λ k. k) reset (3 ∷ 7 ∷ []) rows)
    × IsReported (3 ∷ 7 ∷ []) rows (bulk_all 9 (λ k. k) (extend (pos 30)) (3 ∷ 7 ∷ []) rows)
bulk_all-IsReported_example = bulk_all-IsReported 9 (λ k. k) (pos 30) (3 ∷ 7 ∷ []) rows refl

extend_expiry-lasts_example :
    (extended 9 (pos 30) (pos 500) ≡ pos (max (pos_part (pos 500)) 9 + 86400 * 30))
    × In
        (prolonged 9 (pos 30) (client 3 (codes "u3") 0))
        (enforce_once 2592000 (extend_expiry 9 3 (pos 30) rows).0).0
extend_expiry-lasts_example =
    extend_expiry-lasts 9 3 30 2592000 (client 3 (codes "u3") 0) rows (inr (inr (inl refl))) refl
      (ground arith) (ground arith) (ground arith) refl

abbrev stream : StreamSetting
stream = record {
  network = codes "ws";
  security = codes "tls";
  tls = some (record { server_name = []; alpn = []; fingerprint = []; certificates = [] });
  reality = none;
  tcp = none;
  ws = some (record { path = codes "/w"; headers = [] });
  grpc = none;
}

-- The inbound after a sweep at 100, which disables the second client.
abbrev built : Inbound
built = inbound_of decoder home stream (
    vless
      (record { id = codes "u1"; flow = []; email = codes "u1" }
        ∷ record { id = codes "u3"; flow = []; email = codes "u3" }
        ∷ [])
      (codes "none"))

generate-IsLawful_example : (i : InboundRow) × IsLawful 100 tables built i
unfolding generate hexplus_v.Text.text_eq build_stream_setting
    hexplus_v.Xray.Settings.build_vless_settings enforce_once
generate-IsLawful_example = generate-IsLawful decoder 100 tables [] [] built (inl refl)

enforce_once-is_open_example :
    (is_open (build_socks_settings rows) ≡ not (any has_account rows))
    × (is_open (build_socks_settings (enforce_once 100 rows).0)
        ≡ not (any (λ c. has_account c && not (is_flipped 100 c)) rows))
enforce_once-is_open_example = enforce_once-is_open 100 rows

abbrev draws : Draws
draws = record {
  uuid = codes "u4";
  password = some (codes "p4");
  key = none;
  token = some (codes "t4");
}

abbrev input : ClientInput
input = record {
  email = codes "new";
  uuid = [];
  password = [];
  key = [];
  quota_bytes = pos 0;
  ip_limit = pos 0;
  expires_at = pos 0;
  enabled = none;
}

draws-AreFilled : AreFilled draws
draws-AreFilled = record {
  uuid = refl;
  password = λ p e. rw (← some-injective (codes "p4") p e) refl;
}

create_client_served_example :
    (c : ClientRow) × In c (create_client draws true 9 (codes "1") (some input) tables).0.clients
    × (c.email ≡ codes "new")
    × (is_empty (credential (codes "vless") c) ≡ false)
    × (b : Inbound) × In b
        (generate decoder
          (create_client draws true 9 (codes "1") (some input) tables).0
          []
          []).0.inbounds
    × (b.tag ≡ codes "in-1")
    × In (credential (codes "vless") c) (secrets b.settings)
unfolding create_client build_stream_setting hexplus_v.Xray.Generate.stored_params
    hexplus_v.Text.text_eq hexplus_v.Text.Number.parse_int
create_client_served_example =
    create_client_served decoder draws true 9 1 (codes "1") input tables [] [] home params
      draws-AreFilled refl refl refl (inl refl) refl refl refl refl
