-- ===== src/Tests/Payload.antt =====
-- internal/proxy: a handler, and the requests of clients.
use hexplus_v.Base.{◌≡◌, refl, ◌⊎◌, Bool, true, false, ◌++◌}
use hexplus_v.Base.Int.{pos}
use hexplus_v.Proxy.{Handler, handle_conn}
use hexplus_v.Proxy.Allowlist.{IsLocal, handle_conn_reach}
use hexplus_v.Proxy.Header.{crlf, find_header}
use hexplus_v.Text.{Text, codes, trim_space}

abbrev ssh_proxy : Handler
ssh_proxy = record {
  cfg = record {
    name = codes "ssh";
    port = pos 80;
    default_host = codes "127.0.0.1:22";
    status_code = codes "101";
    status_msg = codes "Switching Protocols";
    verbose = false;
  };
  response_bytes = codes "HTTP/1.1 101 Switching Protocols" ++ crlf ++ crlf;
}

abbrev request_line : Text
request_line = codes "GET / HTTP/1.1" ++ crlf

abbrev value : Text
value = codes "LocalHost:1194 "

abbrev request : Text
request = request_line ++ (codes "X-Real-Host" ++ codes ": ") ++ (value ++ crlf ++ crlf)

abbrev always : Text → Bool
always t = true

handle_conn_reach_example :
    (trim_space value ≡ ssh_proxy.cfg.default_host)
    ⊎ ((trim_space value ≡ find_header request (codes "X-Real-Host")) × IsLocal (trim_space value))
unfolding handle_conn trim_space hexplus_v.Text.has_prefix
handle_conn_reach_example = handle_conn_reach ssh_proxy always true request (trim_space value) refl
