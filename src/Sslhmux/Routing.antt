-- ===== src/Sslhmux/Routing.antt =====
-- internal/sslhmux: where a connection goes, and what the backend gets to see.
use hexplus_v.Base.{
  ℕ, ◌≤◌, ◌≡◌, refl, sym, ◌≢◌, Bool, true, false, some, [], ◌∷◌, ◌++◌, arith, if◌then◌else◌, length,
  take, take-append-drop,
}
use hexplus_v.Base.Int.{ℤ}
use hexplus_v.Sslhmux.Detect.{
  Host, Memory, content, points_at_self, detect_ssh, detect_ssl, detect_http, detect_openvpn,
  sshd_config_path, squid_conf_path,
}
use hexplus_v.Sslhmux.Detect.Live.{starved, read_file-starved}
use hexplus_v.Sslhmux.{
  Kind, ssh, ssl, http, other_openvpn, piped, silent, no_backend, own_port, unreachable, Outcome,
  classify, backend_for, handle_mux_conn,
}
use hexplus_v.Text.{Text, codes, text_eq}

-- Four bytes decide: more bytes never change where a connection goes.
pub classify-append : (p q : Text) → 4 ≤ length p → classify (p ++ q) ≡ classify p
unfolding classify
classify-append (a ∷ b ∷ c ∷ d ∷ p) q h = refl
classify-append p q h = absurd (omega arith)

-- When every later read fails, each protocol keeps the backend that was found before.
pub backend_for-starved :
    (host : Host) (m : Memory) (sshd squid server : Text) (tunnel : ℤ) (kind : Kind)
    → host.read_conf sshd_config_path ≡ content sshd
    → host.read_conf squid_conf_path ≡ content squid
    → host.read_conf (codes "/etc/openvpn/server.conf") ≡ content server
    → host.tunnel_config ≡ some tunnel
    → (backend_for (starved host) kind (backend_for host kind m).0).1 ≡ (backend_for host kind m).1
unfolding backend_for
backend_for-starved host m sshd squid server tunnel ssh a b c d =
    let (x, y) = read_file-starved host sshd_config_path m sshd a in
    unfold detect_ssh in ground (arith, x, y)
backend_for-starved host m sshd squid server tunnel ssl a b c d =
    unfold detect_ssl in ground (arith, d)
backend_for-starved host m sshd squid server tunnel http a b c d =
    let (x, y) = read_file-starved host squid_conf_path m squid b in
    unfold detect_http in ground (arith, x, y)
backend_for-starved host m sshd squid server tunnel other_openvpn a b c d =
    let (x, y) = read_file-starved host (codes "/etc/openvpn/server.conf") m server c in
    unfold detect_openvpn in ground (arith, x, y)

-- The outcome that a backend leads to.
abbrev routed : Host → (Text → Bool) → ℕ → Kind → Text → Text → Outcome
routed host dial port kind target arrived =
    if text_eq target []
    then no_backend kind
    else if points_at_self host target port
    then own_port kind target
    else if dial target
    then piped target arrived
    else unreachable kind target

handle_mux_conn-routed :
    (host : Host) (dial : Text → Bool) (port : ℕ) (arrived : Text) (m : Memory)
    → arrived ≢ []
    → let back = backend_for host (classify (take 8 arrived)) m in
      handle_mux_conn host dial port arrived m
      ≡ (back.0, routed host dial port (classify (take 8 arrived)) back.1 arrived)
unfolding handle_mux_conn
handle_mux_conn-routed host dial port [] m ne = absurd (ne refl)
handle_mux_conn-routed host dial port (c ∷ arrived) m ne = rw (take-append-drop 7 arrived) refl

-- The same outcome for other bytes of the client.
abbrev pub with_bytes : Text → Outcome → Outcome
with_bytes bytes silent = silent
with_bytes bytes (no_backend kind) = no_backend kind
with_bytes bytes (own_port kind target) = own_port kind target
with_bytes bytes (unreachable kind target) = unreachable kind target
with_bytes bytes (piped target old) = piped target bytes

with_bytes-routed :
    (host : Host) (dial : Text → Bool) (port : ℕ) (kind : Kind) (target a b : Text)
    → with_bytes b (routed host dial port kind target a) ≡ routed host dial port kind target b
with_bytes-routed host dial port kind target a b =
    go (text_eq target []) (points_at_self host target port) (dial target)
  where
    go :
        (x y z : Bool)
        → with_bytes b (
            if x
            then no_backend kind
            else if y
            then own_port kind target
            else if z
            then piped target a
            else unreachable kind target)
          ≡ (if x
              then no_backend kind
              else if y
              then own_port kind target
              else if z
              then piped target b
              else unreachable kind target)
    go true y z = refl
    go false true z = refl
    go false false true = refl
    go false false false = refl

-- After a connection at which the configurations of the services could be read, a later connection of the
-- same protocol at which no file can be read any more ends up as the first one did, with the same backend
-- and all of its own bytes, if both sent some and the same backends answer.
pub handle_mux_conn-starved :
    (host : Host) (dial : Text → Bool) (port : ℕ) (first second : Text) (m : Memory)
    (sshd squid server : Text) (tunnel : ℤ)
    → first ≢ []
    → second ≢ []
    → classify (take 8 second) ≡ classify (take 8 first)
    → host.read_conf sshd_config_path ≡ content sshd
    → host.read_conf squid_conf_path ≡ content squid
    → host.read_conf (codes "/etc/openvpn/server.conf") ≡ content server
    → host.tunnel_config ≡ some tunnel
    → (handle_mux_conn (starved host) dial port second (handle_mux_conn host dial port first m).0).1
      ≡ with_bytes second (handle_mux_conn host dial port first m).1
unfolding points_at_self
handle_mux_conn-starved host dial port first second m sshd squid server tunnel f g same a b c d =
    let kind = classify (take 8 first) in
    let back = backend_for host kind m in
    rw
      (
        handle_mux_conn-routed host dial port first m f,
        handle_mux_conn-routed (starved host) dial port second back.0 g,
        same,
        backend_for-starved host m sshd squid server tunnel kind a b c d,
      )
      (sym (with_bytes-routed host dial port kind back.1 first second))
