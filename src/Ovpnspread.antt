-- ===== src/Ovpnspread.antt =====
-- internal/ovpnspread: the rules that spread the connections over the workers, the ports of new
-- workers, and their caps. What iptables does with a rule is left to the theorems' parameters.
pub mod Shares
pub mod Ports
pub mod Caps
pub mod Apply
use hexplus_v.Base.{
  ℕ, zero, suc, ◌+◌, ◌-◌, Bool, true, false, ◌&&◌, ◌||◌, not, Option, none, some, List, [], ◌∷◌,
  ◌++◌, ltb, ◌==◌, if◌then◌else◌, length, any,
}
use hexplus_v.Base.Int.{ℤ, pos, negsuc}
use hexplus_v.Ovpninstance.{Instance, workers}
use hexplus_v.Speedlimit.{Shaper, Writes, load_for, load_all, cap_of, main_key, set_limit, Limits}
use hexplus_v.Text.{Text, codes, text_eq}
use hexplus_v.Text.Lines.{newline}
use hexplus_v.Text.Number.{format}

-- `NATChain`, `InputChain`
abbrev pub nat_chain : Text
nat_chain = codes "HEXPLUS-OVPN-SPREAD"

abbrev pub input_chain : Text
input_chain = codes "HEXPLUS-OVPN-SPREAD-IN"

-- `WorkerPortBase`, `MaxProcs`
abbrev pub worker_port_base : ℕ
worker_port_base = 21195

abbrev pub max_procs : ℕ
max_procs = 64

pub record Plan : Type 0 where
  pub proto : Text
  pub port : ℕ
  pub workers : List ℕ

unfoldable pub nat_rule : Text → ℕ → ℕ → List Text
nat_rule proto every worker =
    codes "-p"
    ∷ proto
    ∷ codes "-m"
    ∷ codes "statistic"
    ∷ codes "--mode"
    ∷ codes "nth"
    ∷ codes "--every"
    ∷ format every
    ∷ codes "--packet"
    ∷ codes "0"
    ∷ codes "-j"
    ∷ codes "REDIRECT"
    ∷ codes "--to-ports"
    ∷ format worker
    ∷ []

-- The loop of `natRules` with `n - i` in hand.
nat_rules_from : Text → ℕ → List ℕ → List (List Text)
nat_rules_from proto every [] = []
nat_rules_from proto every (w ∷ ws) = nat_rule proto every w ∷ nat_rules_from proto (every - 1) ws

-- `natRules`
unfoldable pub nat_rules : Plan → List (List Text)
unfolding nat_rules_from
nat_rules p = nat_rules_from p.proto (length p.workers + 1) p.workers

input_rules_of : Text → List ℕ → List (List Text)
input_rules_of proto [] = []
input_rules_of proto (w ∷ ws) =
    (codes "-p"
      ∷ proto
      ∷ codes "--dport"
      ∷ format w
      ∷ codes "-m"
      ∷ codes "conntrack"
      ∷ codes "--ctstate"
      ∷ codes "DNAT"
      ∷ codes "-j"
      ∷ codes "ACCEPT"
      ∷ [])
    ∷ (codes "!"
        ∷ codes "-i"
        ∷ codes "lo"
        ∷ codes "-p"
        ∷ proto
        ∷ codes "--dport"
        ∷ format w
        ∷ codes "-j"
        ∷ codes "DROP"
        ∷ [])
    ∷ input_rules_of proto ws

-- `inputRules`
unfoldable pub input_rules : Plan → List (List Text)
unfolding input_rules_of
input_rules p = input_rules_of p.proto p.workers

-- `jump`
pub record Jump : Type 0 where
  pub table : Text
  pub chain : Text
  pub spec : List Text

-- `jumps`
unfoldable pub jumps : Plan → List Jump
jumps p =
    record {
      table = codes "nat";
      chain = codes "PREROUTING";
      spec =
          codes "-p"
          ∷ p.proto
          ∷ codes "-m"
          ∷ codes "addrtype"
          ∷ codes "--dst-type"
          ∷ codes "LOCAL"
          ∷ codes "--dport"
          ∷ format p.port
          ∷ codes "-j"
          ∷ nat_chain
          ∷ [];
    }
    ∷ record {
      table = codes "nat";
      chain = codes "OUTPUT";
      spec =
          codes "-o"
          ∷ codes "lo"
          ∷ codes "-d"
          ∷ codes "127.0.0.0/8"
          ∷ codes "-p"
          ∷ p.proto
          ∷ codes "--dport"
          ∷ format p.port
          ∷ codes "-j"
          ∷ nat_chain
          ∷ [];
    }
    ∷ record { table = codes "filter"; chain = codes "INPUT"; spec = codes "-j" ∷ input_chain ∷ [] }
    ∷ []

-- `jumpsTo`
unfoldable pub jumps_to : List Text → Text → Bool
jumps_to [] target = false
jumps_to (f ∷ []) target = false
jumps_to (f ∷ g ∷ fs) target =
    (text_eq f (codes "-j") && text_eq g target) || jumps_to (g ∷ fs) target

-- A worker of the other protocol.
abbrev is_other : Text → Instance → Bool
is_other proto w = not (text_eq w.proto proto)

abbrev ports_of : List Instance → List ℕ
ports_of [] = []
ports_of (w ∷ ws) = w.port ∷ ports_of ws

-- The plan of `Apply` for workers that are there, none if one has another protocol.
unfoldable pub plan_of : Text → ℕ → List Instance → Option Plan
plan_of proto port ws =
    if any (is_other proto) ws
    then none
    else some (record { proto = proto; port = port; workers = ports_of ws })

-- `taken` of `pickPorts`
unfoldable pub is_taken : ℕ → List Instance → ℕ → Bool
is_taken primary instances p = p == primary || any (λ i. i.port == p) instances

module _ (port_free : ℕ → Bool) where
  -- The loop of `pickPorts`: the ports to try are counted down, and so are the ports to find.
  unfoldable pub pick_from : (ℕ → Bool) → ℕ → ℕ → ℕ → List ℕ
  pick_from taken zero p n = []
  pick_from taken (suc tries) p zero = []
  pick_from taken (suc tries) p (suc n) = elim (not (taken p) && port_free p) [
    | true ↦ p ∷ pick_from taken tries (p + 1) n
    | false ↦ pick_from taken tries (p + 1) (suc n)
  ]

  abbrev enough : ℕ → List ℕ → Option (List ℕ)
  enough n out = if ltb (length out) n then none else some out

  -- `pickPorts`; `port_free` is `portFree` for the protocol
  unfoldable pub pick_ports : ℕ → ℕ → List Instance → Option (List ℕ)
  unfolding pick_from is_taken
  pick_ports n primary instances =
      enough n
        (pick_from (is_taken primary instances) (65536 - worker_port_base) worker_port_base n)

-- The loop of `SyncSpeedLimit`: the caps that it read are `limits`, and every write is told apart.
unfoldable pub sync_from : (ℕ → Writes) → Limits → List Instance → Shaper → Shaper × List Instance
sync_from w limits [] s = (s, [])
sync_from w limits (i ∷ is) s =
    let written = set_limit (w i.id) (format i.id) (pos (cap_of main_key limits)) s in
    let kept = sync_from w limits is s in
    let synced = sync_from w limits is written.0 in
    if cap_of (format i.id) limits == cap_of main_key limits
    then kept
    else (synced.0, if written.1 then i ∷ synced.1 else synced.1)

-- `SyncSpeedLimit` for the instances, behind the loading: the disk, and the workers that changed
unfoldable pub sync_speed_limit : (ℕ → Writes) → List Instance → Shaper → Shaper × List Instance
unfolding sync_from load_all workers
sync_speed_limit w instances s = sync_from w (load_all s.conf) (workers instances) s

-- The units that the drop-in names.
unit_names : (Instance → Text) → List Instance → Text
unit_names unit [] = []
unit_names unit (w ∷ []) = unit w
unit_names unit (w ∷ v ∷ ws) = unit w ++ b' ' ∷ unit_names unit (v ∷ ws)

-- `dropInContent`, the unit name of an instance given
unfoldable pub drop_in_content : (Instance → Text) → List Instance → Text
unfolding unit_names
drop_in_content unit ws =
    codes "# Generated by hexplus (OpenVPN menu [11]): the CPU-spreading workers"
    ++ newline ∷ codes "# start, stop and restart with the primary."
    ++ newline ∷ codes "[Unit]"
    ++ newline ∷ codes "Wants="
    ++ unit_names unit ws
    ++ newline ∷ []
