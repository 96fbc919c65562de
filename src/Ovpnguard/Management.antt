-- ===== src/Ovpnguard/Management.antt =====
-- internal/ovpnguard/mgmt.go and the passes of run.go. A management connection is what OpenVPN will
-- still send on it, line by line, and what was written to it; reading past the end is an error,
-- as is the deadline. Go's map of sockets is a list: its order is the order of the dials.
pub mod Exchange
pub mod Routing
use hexplus_v.Base.{
  ℕ, zero, suc, ◌+◌, Bool, false, ◌||◌, Option, none, some, List, [], ◌∷◌, ◌++◌, map, ◌==◌,
  if◌then◌else◌, length, keep,
}
use hexplus_v.Maps.{lookup, insert}
use hexplus_v.Ovpnguard.Activity.{SeenAt, mark}
use hexplus_v.Ovpnguard.Decide.{Session, Kill, Policy, decide}
use hexplus_v.Ovpnguard.Status.{parse_status}
use hexplus_v.Text.{Text, codes, text_eq, has_prefix, trim_right}
use hexplus_v.Text.Number.{format}

pub record MgmtConn : Type 0 where
  pub incoming : List Text
  pub sent : List Text
  pub writable : Bool

-- `strings.TrimRight(l, "\r\n")`
abbrev pub chomp : Text → Text
chomp = trim_right (λ c. c == b'\r' || c == b'\n')

-- An asynchronous notification.
abbrev pub is_async : Text → Bool
is_async l = has_prefix (codes ">") l

-- `readLine`: the next line that is no notification, and what is left to read.
unfoldable pub read_line : List Text → Option (Text × List Text)
read_line [] = none
read_line (l ∷ ls) = if is_async (chomp l) then read_line ls else some (chomp l, ls)

-- `m.conn.Write`
abbrev pub write : Text → MgmtConn → Option MgmtConn
write command c = if c.writable then some (record c { sent = c.sent ++ command ∷ [] }) else none

-- The loop of `status`, with fuel for its rounds; `none` is an error.
unfoldable pub status_loop : ℕ → List Text → List Text → Option (List Text × List Text)
unfolding read_line
status_loop zero incoming lines = none
status_loop (suc fuel) incoming lines = elim (read_line incoming) [
  | none ↦ none
  | some (l, rest) ↦
      if text_eq l (codes "END")
      then some (lines, rest)
      else if has_prefix (codes "ERROR:") l
      then none
      else status_loop fuel rest (lines ++ l ∷ [])
]

-- `status`: the reply's lines, and the connection. Each round reads a line, so one more round than
-- there are lines is enough.
unfoldable pub status : MgmtConn → Option (List Text × MgmtConn)
unfolding status_loop
status m = elim (write (codes "status 2") m) [
  | none ↦ none
  | some m' ↦ elim (status_loop (suc (length m'.incoming)) m'.incoming []) [
    | none ↦ none
    | some (lines, rest) ↦ some (lines, record m' { incoming = rest })
  ]
]

abbrev pub kill_command : ℕ → Text
kill_command cid = codes "client-kill " ++ format cid ++ codes " HALT"

-- `clientKill`: whether it succeeded, and the connection.
unfoldable pub client_kill : ℕ → MgmtConn → MgmtConn × Bool
unfolding read_line
client_kill cid m = elim (write (kill_command cid) m) [
  | none ↦ (m, false)
  | some m' ↦ elim (read_line m'.incoming) [
    | none ↦ (record m' { incoming = [] }, false)
    | some (l, rest) ↦ (record m' { incoming = rest }, has_prefix (codes "SUCCESS:") l)
  ]
]

-- `pass`
pub record Pass : Type 0 where
  pub conns : List (Text × MgmtConn)
  pub sessions : List Session

module _ (dial_mgmt : Text → Option MgmtConn) where
  -- One round of `open`: an instance that cannot be dialled or asked is left out.
  unfoldable pub open_one : Text × Text → Pass → Pass
  open_one (inst, path) p = elim (dial_mgmt path) [
    | none ↦ p
    | some m ↦ elim (status m) [
      | none ↦ p
      | some (lines, m') ↦ record {
        conns = insert inst m' p.conns;
        sessions = p.sessions ++ parse_status inst lines;
      }
    ]
  ]

  -- `open`
  unfoldable pub open_all : List (Text × Text) → Pass → Pass
  unfolding open_one
  open_all [] p = p
  open_all (s ∷ socks) p = open_all socks (open_one s p)

-- One round of `(*pass).kill`: the connections, and whether a session was ended.
unfoldable pub kill_one : Kill → List (Text × MgmtConn) → List (Text × MgmtConn) × Bool
unfolding client_kill
kill_one k conns = elim (lookup k.session.instance_name conns) [
  | none ↦ (conns, false)
  | some m ↦
      let (m', done) = client_kill k.session.cid m in
      (insert k.session.instance_name m' conns, done)
]

-- `(*pass).kill`: the connections, and how many sessions were ended.
unfoldable pub kill_all : List Kill → List (Text × MgmtConn) → ℕ → List (Text × MgmtConn) × ℕ
unfolding kill_one
kill_all [] conns done = (conns, done)
kill_all (k ∷ ks) conns done =
    let (conns', ended) = kill_one k conns in kill_all ks conns' (if ended then done + 1 else done)

abbrev pub empty_pass : Pass
empty_pass = record { conns = []; sessions = [] }

module _ (dial_mgmt : Text → Option MgmtConn) where
  -- `enforce` with a liveness history, and without one (`none`): the connections, the number of
  -- ended sessions and the new history.
  unfoldable pub enforce :
      List (Text × Text)
      → Policy
      → Option (List (Text × SeenAt))
      → ℕ
      → List (Text × MgmtConn) × ℕ × Option (List (Text × SeenAt))
  unfolding kill_all open_all
  enforce socks pol none t =
      let p = open_all dial_mgmt socks empty_pass in
      let (conns, done) = kill_all (decide p.sessions pol) p.conns 0 in (conns, done, none)
  enforce socks pol (some seen) t =
      let p = open_all dial_mgmt socks empty_pass in
      let (marked, seen') = mark seen p.sessions t in
      let (conns, done) = kill_all (decide marked pol) p.conns 0 in (conns, done, some seen')

  abbrev menu_reason : Text
  menu_reason = codes "สั่งตัดจากเมนู"

  -- `kickIn`
  unfoldable pub kick_in : List (Text × Text) → Text → List (Text × MgmtConn) × ℕ
  unfolding kill_all open_all
  kick_in socks name =
      let p = open_all dial_mgmt socks empty_pass in
      let mine = keep (λ s. text_eq s.name name) p.sessions in
      kill_all (map (λ s. record { session = s; reason = menu_reason }) mine) p.conns 0
