-- ===== src/Sslhmux.antt =====
-- internal/sslhmux/sslhmux.go: the port multiplexer.
pub mod Address
pub mod Detect
pub mod Routing
use hexplus_v.Base.{ℕ, Bool, List, [], ◌∷◌, ◌++◌, if◌then◌else◌, take, drop, any}
use hexplus_v.Text.{Text, codes, text_eq, has_prefix}
use hexplus_v.Sslhmux.Detect.{
  Host, Memory, detect_ssh, detect_ssl, detect_http, detect_openvpn, points_at_self,
}

-- What `classify` returns: "ssh", "ssl", "http" and "other/openvpn".
pub data Kind : Type 0 where
  ssh ssl http other_openvpn : Kind

abbrev http_prefixes : List Text
http_prefixes =
    codes "GET "
    ∷ codes "POST"
    ∷ codes "HEAD"
    ∷ codes "CONN"
    ∷ codes "PUT "
    ∷ codes "DELE"
    ∷ codes "OPTI"
    ∷ []

-- `classify`, on bytes
unfoldable pub classify : Text → Kind
unfolding has_prefix
classify peek =
    if has_prefix (codes "SSH-") peek
    then ssh
    else if has_prefix (0x16 ∷ 0x03 ∷ []) peek
    then ssl
    else if any (λ p. has_prefix p peek) http_prefixes
    then http
    else other_openvpn

-- `backendFor`
unfoldable pub backend_for : Host → Kind → Memory → Memory × Text
backend_for host ssh m = detect_ssh host m
backend_for host ssl m = detect_ssl host m
backend_for host http m = detect_http host m
backend_for host other_openvpn m = detect_openvpn host m

-- How a connection ends up: closed without a word, dropped with a logged line, or piped to a
-- backend that gets the given bytes first and then what the client still sends.
pub data Outcome : Type 0 where
  silent : Outcome
  no_backend : Kind → Outcome
  own_port : Kind → Text → Outcome
  unreachable : Kind → Text → Outcome
  piped : Text → Text → Outcome

-- `handleMuxConn`: `arrived` are the bytes that came before the deadline (up to eight are peeked),
-- `dial` says which backends answer.
unfoldable pub handle_mux_conn : Host → (Text → Bool) → ℕ → Text → Memory → Memory × Outcome
unfolding backend_for
handle_mux_conn host dial port arrived m = elim (take 8 arrived) [
  | [] ↦ (m, silent)
  | c ∷ peek ↦
      let kind = classify (c ∷ peek) in
      let (m', target) = backend_for host kind m in
      (
        m',
        if text_eq target []
            then no_backend kind
            else if points_at_self host target port
            then own_port kind target
            else if dial target
            then piped target ((c ∷ peek) ++ drop 8 arrived)
            else unreachable kind target,
      )
]
