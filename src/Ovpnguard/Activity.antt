-- ===== src/Ovpnguard/Activity.antt =====
-- internal/ovpnguard/run.go, `activity`: which sessions have lost their device. A time is a number
-- of nanoseconds.
pub mod Idle
use hexplus_v.Base.{
  ℕ, ◌+◌, ◌*◌, ◌^◌, true, Option, none, some, List, [], ◌∷◌, ◌++◌, leb, ◌==◌, if◌then◌else◌,
}
use hexplus_v.Maps.{lookup, insert}
use hexplus_v.Ovpnguard.Decide.{Session}
use hexplus_v.Text.{Text, codes}
use hexplus_v.Text.Number.{format}

-- `staleAfter`: 45 seconds
abbrev pub stale_after : ℕ
stale_after = 45 * 10 ^ 9

pub record SeenAt : Type 0 where
  pub rx : ℕ
  pub changed : ℕ

-- The key of a session: its instance, a slash, its client id.
unfoldable pub key : Session → Text
key s = s.instance_name ++ codes "/" ++ format s.cid

-- What is remembered of one session, and the session, marked where its counter stood still.
unfoldable pub mark_one : Option SeenAt → Session → ℕ → SeenAt × Session
mark_one none s t = (record { rx = s.rx_bytes; changed = t }, s)
mark_one (some prev) s t =
    if prev.rx == s.rx_bytes
    then (prev, if leb (prev.changed + stale_after) t then record s { stale = true } else s)
    else (record { rx = s.rx_bytes; changed = t }, s)

-- The loop of `mark`, with the map `next` that it fills.
unfoldable pub mark_from :
    List (Text × SeenAt)
    → ℕ
    → List Session
    → List (Text × SeenAt)
    → List Session × List (Text × SeenAt)
unfolding mark_one key
mark_from seen t [] next = ([], next)
mark_from seen t (s ∷ ss) next =
    let (seen_at, s') = mark_one (lookup (key s) seen) s t in
    let (rest, final) = mark_from seen t ss (insert (key s) seen_at next) in (s' ∷ rest, final)

-- `(*activity).mark`: the sessions with their marks, and the new memory.
unfoldable pub mark : List (Text × SeenAt) → List Session → ℕ → List Session × List (Text × SeenAt)
unfolding mark_from
mark seen ss t = mark_from seen t ss []
