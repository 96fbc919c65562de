-- ===== src/Panel/Clients/Create.antt =====
-- internal/panel/api_clients.go: a new client of an inbound, whose random credentials come in as
-- arguments.
use hexplus_v.Base.{
  ℕ, ◌+◌, Bool, ◌||◌, Option, none, some, List, [], ◌∷◌, ◌++◌, ◌==◌, if◌then◌else◌,
}
use hexplus_v.Panel.Rows.{ClientRow, InboundRow, Tables}
use hexplus_v.Text.{Text, codes, text_eq}
use hexplus_v.Xray.Transport.{is_empty}
use hexplus_v.Panel.Clients.{
  ClientInput, Reply, Reply.bad_request, Reply.not_found, Reply.server_error, Reply.created,
  path_id, enabled_or_on, reloaded, constrained,
}

-- What `NewUUID`, `NewTrojanPassword`, `NewSSKey` and `newSubToken` draw, none if the draw fails.
pub record Draws : Type 0 where
  pub uuid : Text
  pub password : Option Text
  pub key : Option Text
  pub token : Option Text

abbrev pub with_password : ClientInput → Option Text → Option ClientInput
with_password input none = none
with_password input (some p) = some (record input { password = p })

abbrev with_key : ClientInput → Option Text → Option ClientInput
with_key input none = none
with_key input (some k) = some (record input { key = k })

abbrev pub needs_password : Draws → ClientInput → Option ClientInput
needs_password d input =
    if is_empty input.password then with_password input d.password else some input

-- `fillIdentity`
unfoldable pub fill_identity : Draws → ClientInput → Text → Option ClientInput
fill_identity d input protocol =
    if text_eq protocol (codes "vless") || text_eq protocol (codes "vmess")
    then some (if is_empty input.uuid then record input { uuid = d.uuid } else input)
    else if text_eq protocol (codes "trojan")
    then needs_password d input
    else if text_eq protocol (codes "shadowsocks")
    then (if is_empty input.key then with_key input d.key else some input)
    else if text_eq protocol (codes "hysteria2")
    then needs_password d input
    else if text_eq protocol (codes "wireguard")
    then (if is_empty input.key then none else some input)
    else if text_eq protocol (codes "http") || text_eq protocol (codes "socks")
    then needs_password d input
    else if text_eq protocol (codes "dokodemo-door")
    then some input
    else none

abbrev pub new_client : ℕ → ℕ → Text → Text → ClientInput → ℕ → ClientRow
new_client id inbound protocol token input now = record {
  id = id;
  inbound_id = inbound;
  email = input.email;
  protocol = protocol;
  uuid = input.uuid;
  password = input.password;
  shared_key = input.key;
  quota_bytes = input.quota_bytes;
  used_bytes = 0;
  ip_limit = input.ip_limit;
  expires_at = input.expires_at;
  enabled = enabled_or_on input.enabled;
  sub_token = token;
  created_at = now;
  updated_at = now;
}

abbrev pub inserted : Bool → Tables → Option (List ClientRow) → Tables × Reply
inserted reload t none = (t, bad_request)
inserted reload t (some cs) = (
  record t { clients = cs; last_client = t.last_client + 1 },
  reloaded reload (t.last_client + 1) (created (t.last_client + 1)),
)

-- The insert of `handleClientCreate`, behind the checks.
abbrev pub insert_client : Bool → ℕ → ℕ → Text → Text → ClientInput → Tables → Tables × Reply
insert_client reload now inbound protocol token input t = inserted reload t (
    constrained (t.clients ++ new_client (t.last_client + 1) inbound protocol token input now ∷ []))

abbrev pub create_token : Bool → ℕ → ℕ → Text → Option Text → ClientInput → Tables → Tables × Reply
create_token reload now inbound protocol none input t = (t, server_error)
create_token reload now inbound protocol (some token) input t =
    insert_client reload now inbound protocol token input t

abbrev pub create_filled :
    Draws → Bool → ℕ → ℕ → Text → Option ClientInput → Tables → Tables × Reply
create_filled d reload now inbound protocol none t = (t, bad_request)
create_filled d reload now inbound protocol (some input) t =
    create_token reload now inbound protocol d.token input t

abbrev pub create_for :
    Draws → Bool → ℕ → Option InboundRow → Option ClientInput → Tables → Tables × Reply
create_for d reload now none body t = (t, not_found)
create_for d reload now (some i) none t = (t, bad_request)
create_for d reload now (some i) (some input) t =
    if is_empty input.email
    then (t, bad_request)
    else create_filled d reload now i.id i.protocol (fill_identity d input i.protocol) t

-- The first row with an id.
unfoldable pub inbound_at : ℕ → List InboundRow → Option InboundRow
inbound_at id [] = none
inbound_at id (i ∷ is) = if i.id == id then some i else inbound_at id is

abbrev pub create_at : Draws → Bool → ℕ → Option ℕ → Option ClientInput → Tables → Tables × Reply
create_at d reload now none body t = (t, bad_request)
create_at d reload now (some inbound) body t =
    create_for d reload now (inbound_at inbound t.inbounds) body t

-- `handleClientCreate`; `body` is the decoded input
unfoldable pub create_client :
    Draws → Bool → ℕ → Text → Option ClientInput → Tables → Tables × Reply
unfolding path_id fill_identity inbound_at constrained
create_client d reload now raw body t = create_at d reload now (path_id raw) body t
