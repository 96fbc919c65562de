-- ===== src/User/Endpoint.antt =====
-- internal/user/ovpn.go with internal/pki/serverconf.go: the endpoint of a client file.
use hexplus_v.Base.{ℕ, ◌<◌, ◌≡◌, refl, ◌≢◌, inl, inr, some, []}
use hexplus_v.Base.Int.{pos}
use hexplus_v.Pki.{Listen, write_server_conf}
use hexplus_v.Pki.Listening.{IsProto, read_server_listen-write}
use hexplus_v.Text.{Text, text_eq}
use hexplus_v.User.Export.{OvpnInput, endpoint, resolve_endpoint}
use hexplus_v.User.Store.{Host, ok, guard}

proto_ne-nil : (proto : Text) → IsProto proto → proto ≢ []
proto_ne-nil proto (inl e) = rw e (λ f. cc)
proto_ne-nil proto (inr e) = rw e (λ f. cc)

endpoint_unset :
    (i : OvpnInput) (l : Listen) (h : Host)
    → endpoint i (pos 0) [] (some l) h
      ≡ (h, ok (record i { remote_port = pos l.port; proto = l.proto }))
unfolding endpoint guard
endpoint_unset i l h = refl

-- A client file for which no port and no protocol are given dials the port and the protocol that
-- the server's configuration was written with: a port in range, and udp or tcp.
pub resolve_endpoint-write :
    (i : OvpnInput) (h : Host) (port : ℕ) (proto choice : Text)
    → i.remote_port ≡ pos 0
    → i.proto ≡ []
    → 0 < port
    → port < 65536
    → IsProto proto
    → resolve_endpoint i (some (write_server_conf port proto choice)) h
      ≡ (h, ok (record i { remote_port = pos port; proto = proto }))
unfolding resolve_endpoint guard text_eq
resolve_endpoint-write i h port proto choice no_port no_proto positive fits known =
    rw (no_proto, no_port, read_server_listen-write port proto choice positive fits known) refl
