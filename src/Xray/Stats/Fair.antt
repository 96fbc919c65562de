-- ===== src/Xray/Stats/Fair.antt =====
-- internal/xray/stats.go: no client is charged for more than its traffic, whatever restarts, polls and
-- failing transactions there are.
use hexplus_v.Base.{
  ℕ, ◌+◌, ◌≤◌, ◌≡◌, inl, inr, Bool, true, ◌&&◌, List, [], ◌∷◌, map, arith, if◌then◌else◌,
  Bool-cases, All, All-imp,
}
use hexplus_v.Maps.{insert, lookup}
use hexplus_v.Text.{Text, codes, text_eq, text_eq_iff}
use hexplus_v.Xray.Stats.{
  Client, Prev, Sample, Tables, charge, last_of, parse_stats, persist, persist_all, persist_one,
  split_stat_name,
}
use hexplus_v.Xray.Stats.Poll.{
  Counters, IsDistinct, all_due, all_due-parse_stats, bytes_for-parse_stats, reply,
}
use hexplus_v.Xray.Stats.Growth.{all_due-traffic, insert-IsDistinct}
use hexplus_v.Xray.Stats.Share.{bytes_for, part_for}

-- xray with its counters, the panel with what it remembers of them, and the tables.
pub record World : Type 0 where
  pub counters : Counters
  pub prev : Prev
  pub tables : Tables

pub data Event : Type 0 where
  traffic : (counter : Text) (bytes : ℕ) → Event
  restart : Event
  poll : (begins commits : Bool) (now : ℕ) → Event

-- A poll takes the samples and writes them (`PollAndPersist`).
abbrev polled : Bool → Bool → ℕ → World → Prev × List Sample → World
polled begins commits now w (prev, samples) = record {
  counters = w.counters;
  prev = prev;
  tables = persist begins commits now samples w.tables;
}

unfoldable pub step : Event → World → World
unfolding parse_stats persist
step (traffic counter bytes) w = record w {
  counters = insert counter (last_of (lookup counter w.counters) + bytes) w.counters;
}
step restart w = record w { counters = [] }
step (poll begins commits now) w =
    polled begins commits now w (parse_stats (reply w.counters) w.prev)

unfoldable pub run : List Event → World → World
unfolding step
run [] w = w
run (e ∷ es) w = run es (step e w)

-- The bytes that a user has sent and received.
abbrev pub user : Text
user = codes "user"

abbrev pub moved : Text → Event → ℕ
moved email (traffic counter bytes) = part_for user email (split_stat_name counter) bytes
moved email _ = 0

abbrev pub total_moved : Text → List Event → ℕ
total_moved email [] = 0
total_moved email (e ∷ es) = moved email e + total_moved email es

-- Each client's charge and what is still due for it, by the bytes allowed to its email.
abbrev IsCovered : (Text → ℕ) → Counters → Prev → List Client → Type 0
IsCovered allowed w prev = All (λ c. c.used_bytes + all_due user c.email prev w ≤ allowed c.email)

charge_used :
    (s : Sample) (c : Client)
    → ((charge s c).email ≡ c.email)
      × ((charge s c).used_bytes
          ≡ c.used_bytes + (if text_eq c.email s.name then s.up + s.down else 0))
unfolding charge
charge_used s c = ground arith

-- What the samples add to a client at most.
abbrev IsWithin : (Text → ℕ) → List Sample → List Client → Type 0
IsWithin allowed ss = All (λ c. c.used_bytes + bytes_for user c.email ss ≤ allowed c.email)

charge-IsWithin :
    (allowed : Text → ℕ) (s : Sample) (ss : List Sample) (cs : List Client)
    → text_eq s.scope user ≡ true
    → IsWithin allowed (s ∷ ss) cs
    → IsWithin allowed ss (map (charge s) cs)
unfolding charge
charge-IsWithin allowed s ss [] e _ = tt
charge-IsWithin allowed s ss (c ∷ cs) e (h, hs) = (
  elim (Bool-cases (text_eq c.email s.name)) [
    | inl hit ↦
        rw (charge, hit)
          (ground (arith, h, e, hit, text_eq_iff c.email s.name, text_eq_iff s.name c.email))
    | inr miss ↦ rw (charge, miss) (omega (arith, h))
  ],
  charge-IsWithin allowed s ss cs e hs,
)

skip-IsWithin :
    (allowed : Text → ℕ) (s : Sample) (ss : List Sample) (cs : List Client)
    → IsWithin allowed (s ∷ ss) cs
    → IsWithin allowed ss cs
skip-IsWithin allowed s ss [] _ = tt
skip-IsWithin allowed s ss (c ∷ cs) (h, hs) = (omega (arith, h), skip-IsWithin allowed s ss cs hs)

persist_one-IsWithin :
    (allowed : Text → ℕ) (now : ℕ) (s : Sample) (ss : List Sample) (t : Tables)
    → IsWithin allowed (s ∷ ss) t.clients
    → IsWithin allowed ss (persist_one now s t).clients
unfolding persist_one
persist_one-IsWithin allowed now s ss t h = elim (Bool-cases (text_eq s.scope (codes "inbound"))) [
  | inl a ↦ rw a (skip-IsWithin allowed s ss t.clients h)
  | inr a ↦ elim (Bool-cases (text_eq s.scope (codes "user"))) [
    | inl b ↦ rw (a, b) (charge-IsWithin allowed s ss t.clients b h)
    | inr b ↦ elim (Bool-cases (text_eq s.scope (codes "outbound"))) [
      | inl c ↦ rw (a, b, c) (skip-IsWithin allowed s ss t.clients h)
      | inr c ↦ rw (a, b, c) (skip-IsWithin allowed s ss t.clients h)
    ]
  ]
]

persist_all-IsWithin :
    (allowed : Text → ℕ) (now : ℕ) (ss : List Sample) (t : Tables)
    → IsWithin allowed ss t.clients
    → IsWithin allowed [] (persist_all now ss t).clients
unfolding persist_all
persist_all-IsWithin allowed now [] t h = h
persist_all-IsWithin allowed now (s ∷ ss) t h =
    persist_all-IsWithin allowed now ss (persist_one now s t)
      (persist_one-IsWithin allowed now s ss t h)

persist-IsWithin :
    (allowed : Text → ℕ) (begins commits : Bool) (now : ℕ) (ss : List Sample) (t : Tables)
    → IsWithin allowed ss t.clients
    → IsWithin allowed [] (persist begins commits now ss t).clients
unfolding persist
persist-IsWithin allowed begins commits now [] t h = h
persist-IsWithin allowed begins commits now (s ∷ ss) t h = elim (Bool-cases (begins && commits)) [
  | inl e ↦ rw e (persist_all-IsWithin allowed now (s ∷ ss) t h)
  | inr e ↦ rw e (drop_samples (s ∷ ss) t.clients h)
]
  where
    drop_samples :
        (rs : List Sample) (cs : List Client) → IsWithin allowed rs cs → IsWithin allowed [] cs
    drop_samples rs [] _ = tt
    drop_samples rs (c ∷ cs) (g, gs) = (omega (arith, g), drop_samples rs cs gs)

-- The world keeps its counters apart, and every client is covered.
abbrev IsFair : (Text → ℕ) → World → Type 0
IsFair allowed w = IsDistinct w.counters × IsCovered allowed w.counters w.prev w.tables.clients

step-IsFair :
    (allowed : Text → ℕ) (e : Event) (w : World)
    → IsFair allowed w
    → IsFair (λ email. allowed email + moved email e) (step e w)
unfolding step
step-IsFair allowed (traffic n bytes) w (distinct, covered) = (
  insert-IsDistinct n (last_of (lookup n w.counters) + bytes) w.counters distinct,
  All-imp _ _ w.tables.clients
      (λ c h. omega (arith, h, all_due-traffic user c.email n bytes w.prev w.counters)) covered,
)
step-IsFair allowed restart w (distinct, covered) =
    (tt, All-imp _ _ w.tables.clients (λ c h. omega (arith, h)) covered)
step-IsFair allowed (poll begins commits now) w (distinct, covered) = (
  distinct,
  All-imp _ _ (persist begins commits now samples w.tables).clients
      (λ c h. omega (arith, h, all_due-parse_stats user c.email w.counters w.prev distinct))
      (persist-IsWithin allowed begins commits now samples w.tables (
        All-imp _ _ w.tables.clients
          (λ c h. omega (arith, h, bytes_for-parse_stats user c.email w.counters w.prev distinct))
          covered)),
)
  where
    samples : List Sample
    samples = (parse_stats (reply w.counters) w.prev).1

run-IsFair :
    (es : List Event) (allowed : Text → ℕ) (w : World)
    → IsFair allowed w
    → IsFair (λ email. allowed email + total_moved email es) (run es w)
unfolding run
run-IsFair [] allowed w (distinct, covered) =
    (distinct, All-imp _ _ w.tables.clients (λ c h. omega (arith, h)) covered)
run-IsFair (e ∷ es) allowed w fair =
    let (distinct, covered) =
      run-IsFair es (λ email. allowed email + moved email e) (step e w)
        (step-IsFair allowed e w fair) in
    (distinct, All-imp _ _ (run es (step e w)).tables.clients (λ c h. omega (arith, h)) covered)

-- No client is charged for more than its traffic. From a start of xray on, and whatever the panel
-- remembers of an earlier one, let traffic, restarts of xray and polls come in any order, each poll
-- with a transaction that may fail: the used bytes of a client have grown at most by the bytes that
-- the counters of its email have counted.
pub charged_fairly :
    (es : List Event) (start : Text → ℕ) (prev : Prev) (t : Tables)
    → All (λ c. c.used_bytes ≤ start c.email) t.clients
    → All
        (λ c. c.used_bytes ≤ start c.email + total_moved c.email es)
        (run es (record { counters = []; prev = prev; tables = t })).tables.clients
charged_fairly es start prev t h =
    let (distinct, covered) =
      run-IsFair es start (record { counters = []; prev = prev; tables = t })
        (tt, All-imp _ _ t.clients (λ c g. omega (arith, g)) h) in
    All-imp _ _ (run es (record { counters = []; prev = prev; tables = t })).tables.clients
      (λ c g. omega (arith, g)) covered
