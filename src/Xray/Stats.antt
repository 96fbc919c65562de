-- ===== src/Xray/Stats.antt =====
-- internal/xray/stats.go: the counters of xray, read at each poll, and the tables of the panel that add
-- them up. The decoded reply is an argument; a counter is not negative, and the tables have a primary
-- key each.

pub mod Share
pub mod Poll
pub mod Growth
pub mod Fair
use hexplus_v.Base.{
  ℕ, zero, suc, ◌+◌, ◌-◌, ◌*◌, ◌%◌, ◌^◌, Bool, ◌&&◌, not, Option, none, some, List, [], ◌∷◌, ◌++◌,
  map, ltb, ◌==◌, if◌then◌else◌, keep,
}
use Prim.Native.Nat.{bit_xor}
use hexplus_v.Base.Int.{ℤ, pos, negsuc}
use hexplus_v.Maps.{insert, lookup, remove}
use hexplus_v.Text.{Text, codes, has_prefix, text_eq}
use hexplus_v.Text.Lines.{grow}

-- One entry of `xrayStatResponse`, its value `none` if it is not an `int64`
pub record Stat : Type 0 where
  pub name : Text
  pub value : Option ℕ

-- `Sample`
pub record Sample : Type 0 where
  pub scope : Text
  pub name : Text
  pub up : ℕ
  pub down : ℕ

-- `prev`
abbrev pub Prev : Type 0
Prev = List (Text × ℕ)

abbrev arrows : Text
arrows = codes ">>>"

-- The parts of a name from here on, with this many code points of a mark left to skip.
split_from : ℕ → Text → List Text
split_from n [] = [] ∷ []
split_from (suc n) (c ∷ s) = split_from n s
split_from zero (c ∷ s) =
    let rest = split_from 2 s in
    let kept = grow c (split_from 0 s) in if has_prefix arrows (c ∷ s) then [] ∷ rest else kept

abbrev stat_parts : List Text → Option (Text × Text × Text)
stat_parts (scope ∷ ident ∷ traffic ∷ direction ∷ []) =
    if text_eq traffic (codes "traffic") then some (scope, ident, direction) else none
stat_parts _ = none

-- `splitStatName`
unfoldable pub split_stat_name : Text → Option (Text × Text × Text)
unfolding split_from
split_stat_name name = stat_parts (split_from 0 name)

-- What a counter has gained, all of it after a restart.
unfoldable pub delta : ℕ → ℕ → ℕ
delta cur last = if ltb cur last then cur else cur - last

abbrev pub last_of : Option ℕ → ℕ
last_of none = 0
last_of (some v) = v

unfoldable pub add_direction : Text → ℕ → Sample → Sample
add_direction direction d s =
    if text_eq direction (codes "uplink")
    then record s { up = s.up + d }
    else if text_eq direction (codes "downlink")
    then record s { down = s.down + d }
    else s

abbrev pub is_for : Text → Text → Sample → Bool
is_for scope name s = text_eq s.scope scope && text_eq s.name name

-- The bucket of a scope and a name.
unfoldable pub add_sample : Text → Text → Text → ℕ → List Sample → List Sample
unfolding add_direction
add_sample scope name direction d [] =
    add_direction direction d (record { scope = scope; name = name; up = 0; down = 0 }) ∷ []
add_sample scope name direction d (b ∷ bs) =
    if is_for scope name b
    then add_direction direction d b ∷ bs
    else b ∷ add_sample scope name direction d bs

-- The rest of a round, the entry read.
unfoldable pub count_value : Text → ℕ → Text × Text × Text → Prev × List Sample → Prev × List Sample
unfolding delta add_sample
count_value name cur (scope, ident, direction) (prev, bs) = (
  insert name cur prev,
  if delta cur (last_of (lookup name prev)) == 0
      then bs
      else add_sample scope ident direction (delta cur (last_of (lookup name prev))) bs,
)

abbrev count_split :
    Text → Option (Text × Text × Text) → Option ℕ → Prev × List Sample → Prev × List Sample
count_split name none value st = st
count_split name (some parts) none st = st
count_split name (some parts) (some cur) st = count_value name cur parts st

-- One round of the loop of `parseStatsJSON`.
unfoldable pub count_stat : Stat → Prev × List Sample → Prev × List Sample
unfolding split_stat_name count_value
count_stat s st = count_split s.name (split_stat_name s.name) s.value st

unfoldable pub count_stats : List Stat → Prev × List Sample → Prev × List Sample
unfolding count_stat
count_stats [] st = st
count_stats (s ∷ ss) st = count_stats ss (count_stat s st)

abbrev has_traffic : Sample → Bool
has_traffic s = not (s.up == 0 && s.down == 0)

abbrev pub sampled : Prev × List Sample → Prev × List Sample
sampled (prev, bs) = (prev, keep has_traffic bs)

-- `parseStatsJSON` behind the decoding: the new `prev` and the samples
unfoldable pub parse_stats : List Stat → Prev → Prev × List Sample
unfolding count_stats
parse_stats stats prev = sampled (count_stats stats (prev, []))

abbrev pub counter_of : Text → Text → Text
counter_of email direction = codes "user>>>" ++ email ++ codes ">>>traffic>>>" ++ direction

-- `forgetCounter`
unfoldable pub forget_counter : Text → Prev → Prev
forget_counter email prev =
    remove (counter_of email (codes "downlink")) (remove (counter_of email (codes "uplink")) prev)

pub record Inbound : Type 0 where
  pub id : ℤ
  pub tag : Text
  pub total_up : ℕ
  pub total_down : ℕ

pub record Client : Type 0 where
  pub id : ℤ
  pub email : Text
  pub used_bytes : ℕ

-- A row of `traffic_samples`.
pub record Row : Type 0 where
  pub scope : Text
  pub ref_id : ℤ
  pub sampled_at : ℕ
  pub up : ℕ
  pub down : ℕ

pub record Tables : Type 0 where
  pub inbounds : List Inbound
  pub clients : List Client
  pub rows : List Row

abbrev offset64 : ℕ
offset64 = 14695981039346656037

abbrev prime64 : ℕ
prime64 = 1099511628211

fnv1a_from : ℕ → Text → ℕ
fnv1a_from h [] = h
fnv1a_from h (b ∷ s) = fnv1a_from (bit_xor h b * prime64 % 2 ^ 64) s

-- `fnv1a`, a text as its bytes
unfoldable pub fnv1a : Text → ℕ
unfolding fnv1a_from
fnv1a s = fnv1a_from offset64 s

-- `int64(h)` of a `uint64`
abbrev to_int64 : ℕ → ℤ
to_int64 h = if ltb h (2 ^ 63) then pos h else negsuc (2 ^ 64 - 1 - h)

row_of : ℕ → ℤ → Sample → Row
row_of now id s = record {
  scope = s.scope;
  ref_id = id;
  sampled_at = now;
  up = s.up;
  down = s.down;
}

-- The inbound with the tag gains the sample, and a row; an unknown tag is left out.
add_inbound : ℕ → Sample → List Inbound → List Row → List Inbound × List Row
unfolding row_of
add_inbound now s [] rows = ([], rows)
add_inbound now s (i ∷ is) rows =
    let rest = add_inbound now s is rows in
    if text_eq i.tag s.name
    then (
      record i { total_up = i.total_up + s.up; total_down = i.total_down + s.down } ∷ is,
      rows ++ row_of now i.id s ∷ [],
    )
    else (i ∷ rest.0, rest.1)

-- Every client with the email is charged.
unfoldable pub charge : Sample → Client → Client
charge s c =
    if text_eq c.email s.name then record c { used_bytes = c.used_bytes + (s.up + s.down) } else c

client_rows : ℕ → Sample → List Client → List Row
unfolding row_of
client_rows now s [] = []
client_rows now s (c ∷ cs) =
    if text_eq c.email s.name
    then row_of now c.id s ∷ client_rows now s cs
    else client_rows now s cs

-- One round of the loop of `Persist`.
unfoldable pub persist_one : ℕ → Sample → Tables → Tables
unfolding add_inbound charge client_rows fnv1a row_of
persist_one now s t =
    if text_eq s.scope (codes "inbound")
    then record t {
      inbounds = (add_inbound now s t.inbounds t.rows).0;
      rows = (add_inbound now s t.inbounds t.rows).1;
    }
    else if text_eq s.scope (codes "user")
    then record t {
      clients = map (charge s) t.clients;
      rows = t.rows ++ client_rows now s t.clients;
    }
    else if text_eq s.scope (codes "outbound")
    then record t { rows = t.rows ++ row_of now (to_int64 (fnv1a s.name)) s ∷ [] }
    else t

unfoldable pub persist_all : ℕ → List Sample → Tables → Tables
unfolding persist_one
persist_all now [] t = t
persist_all now (s ∷ ss) t = persist_all now ss (persist_one now s t)

-- `Persist`: a transaction that cannot begin or commit changes nothing
unfoldable pub persist : (begins commits : Bool) → ℕ → List Sample → Tables → Tables
unfolding persist_all
persist begins commits now [] t = t
persist begins commits now (s ∷ ss) t = if begins && commits then persist_all now (s ∷ ss) t else t
