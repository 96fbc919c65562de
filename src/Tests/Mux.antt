-- ===== src/Tests/Mux.antt =====
-- internal/sslhmux: a multiplexer in front of an SSH server.
use hexplus_v.Base.{◌≡◌, refl, true, some, [], take}
use hexplus_v.Base.Int.{pos}
use hexplus_v.Sslhmux.{piped, ssh, handle_mux_conn, classify, backend_for}
use hexplus_v.Sslhmux.Address.{join_host_port}
use hexplus_v.Sslhmux.Detect.{
  points_at_self, Host, Memory, content, loopback_host, ordinary, ssh_backend,
}
use hexplus_v.Sslhmux.Routing.{with_bytes, handle_mux_conn-starved}
use hexplus_v.Sslhmux.Detect.Live.{starved}
use hexplus_v.Text.{text_ne, Text, codes}

abbrev hello : Text
hello = codes "SSH-2.0-client\r\n"

abbrev host : Host
host = record {
  read_conf = λ path. content (codes "Port 2222");
  tunnel_config = some (pos 8443);
  ip_class = λ t. some ordinary;
}

abbrev nothing_kept : Memory
nothing_kept = record { last_conf = []; last_tunnel_port = pos 0 }

abbrev target : Text
target = (backend_for host (classify (take 8 hello)) nothing_kept).1

target_lem : target ≡ codes "127.0.0.1:2222"
unfolding backend_for classify hexplus_v.Sslhmux.Detect.detect_ssh join_host_port
    hexplus_v.Text.Number.format hexplus_v.Sslhmux.Detect.first_port hexplus_v.Text.Lines.split
    hexplus_v.Sslhmux.Detect.sshd_port hexplus_v.Text.fields hexplus_v.Sslhmux.Detect.is_port_word
    hexplus_v.Text.text_eq hexplus_v.Sslhmux.Address.parse_port hexplus_v.Text.Number.atoi
target_lem = refl

-- Every file reads as the configuration of sshd.
handle_mux_conn-starved_example :
    (handle_mux_conn
      (starved host)
      (λ t. true)
      443
      (codes "SSH-2.0-again")
      (handle_mux_conn host (λ t. true) 443 hello nothing_kept).0).1
    ≡ with_bytes (codes "SSH-2.0-again") (handle_mux_conn host (λ t. true) 443 hello nothing_kept).1
unfolding classify hexplus_v.Text.has_prefix
handle_mux_conn-starved_example =
    handle_mux_conn-starved host (λ t. true) 443 hello (codes "SSH-2.0-again") nothing_kept
      (codes "Port 2222") (codes "Port 2222") (codes "Port 2222") (pos 8443) (λ h. cc) (λ h. cc)
      refl refl refl refl refl
