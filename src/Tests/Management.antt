-- ===== src/Tests/Management.antt =====
-- internal/ovpnguard: the management exchange, the status rows and the injected lines.
use hexplus_v.Base.{◌≡◌, refl, true, false, none, some, List, [], ◌∷◌, arith}
use hexplus_v.Base.Int.{pos}
use hexplus_v.Ovpnguard.Decide.{Session}
use hexplus_v.Ovpnguard.Status.{parse_row}
use hexplus_v.Ovpnguard.Status.Rows.{Unread, row, parse_row-row}
use hexplus_v.Ovpnguard.Conf.{inject_lines, strip_lines}
use hexplus_v.Ovpnguard.Conf.Appended.{body}
use hexplus_v.Ovpnguard.Conf.Injected.{strip-inject}
use hexplus_v.Ovpnguard.Management.{MgmtConn, status}
use hexplus_v.Ovpnguard.Management.Exchange.{spoken, status-spoken, status_error}
use hexplus_v.Text.{Text, codes, text_mem, trim_space, text_eq, has_prefix}
use hexplus_v.Text.Lines.{split}
use hexplus_v.Text.Number.{parse_int}

abbrev bobs : Session
bobs = record {
  instance_name = codes "primary";
  cid = 7;
  name = codes "bob";
  since = pos 100;
  real = codes "203.0.113.7:4000";
  rx_bytes = 10;
  stale = false;
}

abbrev unread : Unread
unread = record {
  common_name = codes "bob";
  vip = codes "10.8.0.2";
  vip6 = [];
  tx = codes "20";
  since_text = codes "2025-01-01";
  peer_id = codes "0";
  cipher = codes "AES-256-GCM";
}

parse_row-row_example : parse_row bobs.instance_name (row bobs (codes "100") unread) ≡ bobs ∷ []
unfolding parse_int hexplus_v.Text.Number.format
parse_row-row_example =
    parse_row-row bobs (codes "100") unread (omega arith) (λ h. cc) (λ h. cc) (omega arith)
      (omega arith) refl refl

abbrev conf : Text
conf = codes "port 1194\n"

abbrev own_lines : List Text
own_lines = codes "management-client-auth" ∷ []

strip-inject_example : body (strip_lines (inject_lines conf own_lines) own_lines) ≡ body conf
unfolding trim_space text_mem text_eq split
strip-inject_example =
    strip-inject conf own_lines (((λ h. cc), omega arith, refl), tt) (refl, (refl, tt))

abbrev talk : MgmtConn
talk = record {
  incoming =
      codes ">INFO:hello\r\n"
      ∷ codes "TITLE,OpenVPN\r\n"
      ∷ codes ">CLIENT:CONNECT\r\n"
      ∷ codes "END\r\n"
      ∷ [];
  sent = [];
  writable = true;
}

status-spoken_example :
    (m : MgmtConn) × (status talk ≡ some (codes "TITLE,OpenVPN" ∷ [], m))
    × (spoken m.incoming ≡ [])
    × (m.sent ≡ codes "status 2" ∷ [])
unfolding text_eq has_prefix hexplus_v.Text.trim_right
status-spoken_example =
    status-spoken talk (codes "TITLE,OpenVPN" ∷ []) [] refl refl ((refl, refl), tt)

abbrev broken_talk : MgmtConn
broken_talk = record {
  incoming = codes "TITLE,OpenVPN\r\n" ∷ codes "ERROR: busy\r\n" ∷ [];
  sent = [];
  writable = true;
}

status_error_example : status broken_talk ≡ none
unfolding text_eq has_prefix hexplus_v.Text.trim_right
status_error_example =
    status_error broken_talk (codes "TITLE,OpenVPN" ∷ []) [] (codes "ERROR: busy") refl
      ((refl, refl), tt) refl refl
