-- ===== src/Pki/Listening.antt =====
-- internal/pki/serverconf.go: the endpoint read back from a configuration that was written.
use hexplus_v.Base.{
  ℕ, ◌<◌, ◌≡◌, refl, ap, ◌∙◌, ◌≢◌, ◌⊎◌, inl, inr, Bool, true, ◌&&◌, ◌||◌, not, some, List, [], ◌∷◌,
  ◌++◌, arith, ◌==◌, Bool-cases, Option-cases, any, All, All-append, All-imp,
}
use mathlib.Core.Option.{some-injective}
use hexplus_v.Maps.{lookup}
use hexplus_v.Pki.{
  Listen, dns_lines, listen_lines, listen_words, openvpn_default, read_server_listen, server_lines,
  write_server_conf,
}
use hexplus_v.Pki.Lines.{auth_lines, crypto_lines, dns_table, exit_notify, key_lines, option_lines}
use hexplus_v.Text.{Text, codes, fields, has_prefix, text_eq, trim_space}
use hexplus_v.Text.Lines.{Lacks, join, Lacks-any, newline, split-join}
use hexplus_v.Text.Number.{IsDigit, atoi-format, format, format-IsDigit}
use hexplus_v.Text.Words.{fields_number}

-- A line that does not begin with `port` or `proto`.
abbrev is_quiet_word : List Text → Bool
is_quiet_word [] = true
is_quiet_word (w ∷ ws) = not (text_eq w (codes "port") || text_eq w (codes "proto"))

abbrev is_quiet : Text → Bool
is_quiet line = is_quiet_word (fields line)

listen_words_quiet : (ws : List Text) (l : Listen) → is_quiet_word ws ≡ true → listen_words ws l ≡ l
unfolding listen_words
listen_words_quiet [] l h = refl
listen_words_quiet (w ∷ []) l h = refl
listen_words_quiet (w ∷ v ∷ ws) l h = ground (arith, h)

abbrev has_newline : Text → Bool
has_newline = any (λ c. c == newline)

-- A line that is quiet and one line.
abbrev is_plain : Text → Bool
is_plain l = is_quiet l && not (has_newline l)

abbrev pub are_plain : List Text → Bool
are_plain [] = true
are_plain (l ∷ ls) = is_plain l && are_plain ls

listen_lines_plain : (ls : List Text) (l : Listen) → are_plain ls ≡ true → listen_lines ls l ≡ l
unfolding listen_lines
listen_lines_plain [] l h = refl
listen_lines_plain (line ∷ ls) l h =
    rw (listen_words_quiet (fields line) l (ground (arith, h)))
      (listen_lines_plain ls l (ground (arith, h)))

plain-Lacks : (ls : List Text) → are_plain ls ≡ true → All (Lacks newline) ls
plain-Lacks [] h = tt
plain-Lacks (l ∷ ls) h =
    (Lacks-any newline l (ground (arith, h)), plain-Lacks ls (ground (arith, h)))

are_plain-append :
    (ls ms : List Text) → are_plain ls ≡ true → are_plain ms ≡ true → are_plain (ls ++ ms) ≡ true
are_plain-append [] ms h k = k
are_plain-append (l ∷ ls) ms h k = ground (arith, are_plain-append ls ms)

abbrev table_is_plain : List (Text × List Text) → Bool
table_is_plain [] = true
table_is_plain ((k, ls) ∷ t) = are_plain ls && table_is_plain t

lookup_plain :
    (k : Text) (t : List (Text × List Text)) (ls : List Text)
    → table_is_plain t ≡ true
    → lookup k t ≡ some ls
    → are_plain ls ≡ true
unfolding lookup
lookup_plain k [] ls h e = cc
lookup_plain k ((j, ms) ∷ t) ls h e = elim (Bool-cases (text_eq j k)) [
  | inl hit ↦ rw (← (some-injective ms ls (rw hit at e))) (ground (arith, h))
  | inr miss ↦ lookup_plain k t ls (ground (arith, h)) (rw miss at e)
]

dns_lines_plain : (choice : Text) → are_plain (dns_lines choice) ≡ true
unfolding dns_lines fields text_eq
dns_lines_plain choice = elim (Option-cases (lookup (trim_space choice) dns_table)) [
  | inl gone ↦ rw (dns_lines, gone) refl
  | inr (ls, found) ↦
      rw (dns_lines, found) (lookup_plain (trim_space choice) dns_table ls refl found)
]

exit_notify_plain : (proto : Text) → are_plain (exit_notify proto) ≡ true
unfolding fields text_eq
exit_notify_plain proto = elim (Bool-cases (text_eq proto (codes "udp"))) [
  | inl e ↦ rw e refl
  | inr e ↦ rw e refl
]

option_lines_plain :
    (status : Text) → is_plain status ≡ true → are_plain (option_lines status) ≡ true
unfolding fields text_eq
option_lines_plain status h = rw h refl

-- The lines behind the pushed ones.
end_plain :
    (dns : List Text) (status proto : Text)
    → are_plain dns ≡ true
    → is_plain status ≡ true
    → are_plain
        (dns ++ crypto_lines ++ auth_lines ++ option_lines status ++ exit_notify proto ++ [] ∷ [])
      ≡ true
end_plain dns status proto h k =
    are_plain-append (dns ++ crypto_lines ++ auth_lines ++ option_lines status ++ exit_notify proto)
      ([] ∷ [])
      (are_plain-append (dns ++ crypto_lines ++ auth_lines ++ option_lines status)
        (exit_notify proto)
        (are_plain-append (dns ++ crypto_lines ++ auth_lines) (option_lines status)
          (are_plain-append (dns ++ crypto_lines) auth_lines
            (are_plain-append dns crypto_lines h (unfold fields text_eq in refl))
            (unfold fields text_eq in refl))
          (option_lines_plain status k))
        (exit_notify_plain proto))
      (unfold fields text_eq in refl)

port_line :
    (n : ℕ) (l : Listen)
    → 0 < n
    → n < 65536
    → listen_words (fields (codes "port " ++ format n)) l ≡ record l { port = n }
unfolding listen_words fields text_eq
port_line n l positive fits = rw (fields_number n) (rw (atoi-format n (omega arith)) (ground arith))

-- The protocol is one that the menus offer.
abbrev pub IsProto : Text → Type 0
IsProto proto = (proto ≡ codes "udp") ⊎ (proto ≡ codes "tcp")

proto_line :
    (proto : Text) (l : Listen)
    → IsProto proto
    → listen_words (fields (codes "proto " ++ proto)) l ≡ record l { proto = proto }
unfolding listen_words fields text_eq has_prefix
proto_line proto l (inl e) = rw e refl
proto_line proto l (inr e) = rw e refl

read_lines :
    (ls : List Text)
    → ls ≢ []
    → All (Lacks newline) ls
    → read_server_listen (some (join newline ls)) ≡ some (listen_lines ls openvpn_default)
unfolding read_server_listen
read_lines ls n h = rw (split-join newline ls n h)

server_tail : Text → Text → List Text
server_tail proto choice =
    (codes "dev tun" ∷ key_lines
      ++ codes "server 10.8.0.0 255.255.0.0"
        ∷ codes "ifconfig-pool-persist ipp.txt"
        ∷ []
        ∷ codes "push \"redirect-gateway def1\""
        ∷ dns_lines choice)
    ++ crypto_lines
    ++ auth_lines
    ++ option_lines (codes "status /var/log/openvpn-status.log 5")
    ++ exit_notify proto
    ++ [] ∷ []

server_tail_plain : (proto choice : Text) → are_plain (server_tail proto choice) ≡ true
unfolding server_tail fields text_eq
server_tail_plain proto choice =
    end_plain (dns_lines choice) (codes "status /var/log/openvpn-status.log 5") proto
      (dns_lines_plain choice) refl

-- What `ReadServerListen` reads from a list of lines that begins with the port and the protocol.
listened :
    (port : ℕ) (proto : Text) (tail : List Text) (l : Listen)
    → 0 < port
    → port < 65536
    → IsProto proto
    → are_plain tail ≡ true
    → listen_lines ((codes "port " ++ format port) ∷ (codes "proto " ++ proto) ∷ tail) l
      ≡ record { proto = proto; port = port }
unfolding listen_lines
listened port proto tail l positive fits known plain =
    rw (port_line port l positive fits, proto_line proto (record l { port = port }) known)
      (listen_lines_plain tail (record { proto = proto; port = port }) plain)

keyword_Lacks :
    (key value : Text) → Lacks newline key → Lacks newline value → Lacks newline (key ++ value)
keyword_Lacks key value h k = All-append (λ c. c ≢ newline) key value h k

format-Lacks : (n : ℕ) → Lacks newline (format n)
format-Lacks n = All-imp IsDigit (λ c. c ≢ newline) (format n) digit-ne-newline (format-IsDigit n)
  where
    digit-ne-newline : (c : ℕ) → IsDigit c → c ≢ newline
    digit-ne-newline c h = ground arith

proto-Lacks : (proto : Text) → IsProto proto → Lacks newline proto
proto-Lacks proto (inl e) = rw e (Lacks-any newline (codes "udp") refl)
proto-Lacks proto (inr e) = rw e (Lacks-any newline (codes "tcp") refl)

endpoint-Lacks :
    (port : ℕ) (proto : Text) (tail : List Text)
    → IsProto proto
    → are_plain tail ≡ true
    → All (Lacks newline) ((codes "port " ++ format port) ∷ (codes "proto " ++ proto) ∷ tail)
endpoint-Lacks port proto tail known plain = (
  keyword_Lacks (codes "port ") (format port) (Lacks-any newline (codes "port ") refl)
      (format-Lacks port),
  (
    keyword_Lacks (codes "proto ") proto (Lacks-any newline (codes "proto ") refl)
        (proto-Lacks proto known),
    plain-Lacks tail plain,
  ),
)

-- Whatever DNS choice is given, the port and the protocol that `WriteServerConf` writes, udp or tcp
-- and a port in range, are what `ReadServerListen` reads back from the file.
pub read_server_listen-write :
    (port : ℕ) (proto choice : Text)
    → 0 < port
    → port < 65536
    → IsProto proto
    → read_server_listen (some (write_server_conf port proto choice))
      ≡ some (record { proto = proto; port = port })
unfolding write_server_conf server_tail
read_server_listen-write port proto choice positive fits known =
    read_lines (server_lines port proto choice) (λ e. cc)
      (endpoint-Lacks port proto (server_tail proto choice) known (server_tail_plain proto choice))
    ∙ ap some (
        listened port proto (server_tail proto choice) openvpn_default positive fits known
          (server_tail_plain proto choice))
