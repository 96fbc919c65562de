-- ===== src/Connlog.antt =====
-- internal/connlog/connlog.go: at most one failure line for each key and window.
pub mod Accounting
use hexplus_v.Base.{ℕ, ◌+◌, Bool, false, Option, none, some, List, ltb, if◌then◌else◌}
use hexplus_v.Maps.{lookup, insert}
use hexplus_v.Text.{Text}

-- `next` is `none` for Go's zero time.
pub record Entry : Type 0 where
  pub next : Option ℕ
  pub suppressed : ℕ

pub record Throttle : Type 0 where
  pub window : ℕ
  pub entries : List (Text × Entry)

-- `t.m[key]`, with the zero entry for a missing key.
unfoldable pub entry_of : Text → Throttle → Entry
entry_of key t = elim (lookup key t.entries) [
  | none ↦ record { next = none; suppressed = 0 }
  | some e ↦ e
]

-- `!e.next.IsZero() && now.Before(e.next)`
abbrev pub is_throttled : Option ℕ → ℕ → Bool
is_throttled none now = false
is_throttled (some next) now = ltb now next

-- `Logf`: the new state, and the number of similar lines that the written line reports, if it is
-- written.
unfoldable pub log_line : Text → ℕ → Throttle → Throttle × Option ℕ
log_line key now t =
    let e = entry_of key t in
    if is_throttled e.next now
    then (
      record t {
        entries = insert key (record { next = e.next; suppressed = e.suppressed + 1 }) t.entries;
      },
      none,
    )
    else (
      record t {
        entries = insert key (record { next = some (now + t.window); suppressed = 0 }) t.entries;
      },
      some e.suppressed,
    )
