-- ===== src/Tests/Traffic.antt =====
-- internal/xray/stats.go and internal/ovpnspread: a few polls, and a plan with workers.
use hexplus_v.Base.{
  ℕ, zero, suc, ◌+◌, ◌*◌, ◌/◌, ◌≤◌, ◌≡◌, refl, inl, true, false, some, List, [], ◌∷◌, ◌++◌, arith,
  if◌then◌else◌, length, any, All,
}
use hexplus_v.Base.Int.{pos}
use hexplus_v.Ovpninstance.{Instance, workers}
use hexplus_v.Ovpnspread.{sync_speed_limit, Plan, nat_rules}
use hexplus_v.Ovpnspread.Shares.{IsNth, IsShare, nat_rules-IsShare, redirected}
use hexplus_v.Speedlimit.{Shaper, Writes, load_for, main_key}
use hexplus_v.Ovpnspread.Caps.{has_key, sync_speed_limit-caps}
use hexplus_v.Text.Lines.{newline}
use hexplus_v.Text.{Text, codes}
use hexplus_v.Xray.Stats.{Prev, Tables, counter_of}
use hexplus_v.Xray.Stats.Fair.{Event, charged_fairly, poll, restart, run, total_moved, traffic}

abbrev tables : Tables
tables = record {
  inbounds = record { id = pos 1; tag = codes "in"; total_up = 0; total_down = 0 } ∷ [];
  clients =
      record { id = pos 1; email = codes "a"; used_bytes = 5 }
      ∷ record { id = pos 2; email = codes "b"; used_bytes = 0 }
      ∷ [];
  rows = [];
}

-- Traffic of both directions, a poll that fails to commit, a restart, and polls that succeed.
abbrev events : List Event
events =
    traffic (counter_of (codes "a") (codes "uplink")) 100
    ∷ poll true true 60
    ∷ traffic (counter_of (codes "b") (codes "downlink")) 7
    ∷ poll true false 120
    ∷ restart
    ∷ traffic (counter_of (codes "a") (codes "downlink")) 30
    ∷ poll true true 180
    ∷ []

abbrev allowed : Text → ℕ
allowed email = 5

-- What the panel remembers of an earlier start of xray.
abbrev remembered : Prev
remembered = (counter_of (codes "a") (codes "uplink"), 40) ∷ []

charged_fairly_example :
    All
      (λ c. c.used_bytes ≤ allowed c.email + total_moved c.email events)
      (run events (record { counters = []; prev = remembered; tables = tables })).tables.clients
charged_fairly_example =
    charged_fairly events allowed remembered tables (omega arith, (omega arith, tt))

abbrev plan : Plan
plan = record { proto = codes "udp"; port = 1194; workers = 21195 ∷ 21196 ∷ [] }

-- One connection of so many, the first of each group.
abbrev one_in : ℕ → ℕ → ℕ
one_in zero k = 0
one_in (suc every) k = (k + every) / suc every

one_in-IsNth : IsNth one_in
one_in-IsNth zero rounds h = absurd (omega arith)
one_in-IsNth (suc every) rounds h = grind arith

nat_rules-IsShare_example :
    IsShare one_in 4 (redirected one_in (nat_rules plan) (4 * (length plan.workers + 1)))
nat_rules-IsShare_example = nat_rules-IsShare one_in plan 4 one_in-IsNth (inl refl) (omega arith)

abbrev instances : List Instance
instances = record { id = 2; port = 21201; proto = codes "udp"; worker = true } ∷ []

abbrev all_done : ℕ → Writes
all_done id = record { removed = true; deployed = true; saved = true }

-- The worker has a cap of its own, the other instance too.
abbrev caps : Shaper
caps = record {
  conf = some (codes "main=10" ++ newline ∷ codes "2=5" ++ newline ∷ codes "3=7" ++ newline ∷ []);
  script = true;
  servers = [];
}

abbrev worker_and_extra : List Instance
worker_and_extra = record { id = 3; port = 1195; proto = codes "tcp"; worker = false } ∷ instances

sync_speed_limit-caps_example :
    load_for (sync_speed_limit all_done worker_and_extra caps).0.conf (codes "2") ≡ (
      if any (has_key (codes "2")) (workers worker_and_extra)
      then load_for caps.conf main_key
      else load_for caps.conf (codes "2"))
sync_speed_limit-caps_example =
    sync_speed_limit-caps all_done worker_and_extra caps (codes "2") (λ id. (refl, refl, refl))
