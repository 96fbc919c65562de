-- ===== src/Acceptloop.antt =====
-- internal/acceptloop/acceptloop.go: the accept loop of the SSL TUNNEL and SSLH daemons. The
-- listener, the clock and the sleep are what the loop meets, as a list of events. Times are in
-- nanoseconds.
pub mod Backoff
use hexplus_v.Base.{
  ℕ, ◌+◌, ◌*◌, ◌^◌, Bool, true, not, Option, none, some, List, [], ◌∷◌, ◌++◌, ltb, leb, ◌==◌,
  if◌then◌else◌,
}

abbrev pub min_delay : ℕ
min_delay = 5 * 10 ^ 6

abbrev pub max_delay : ℕ
max_delay = 10 ^ 9

abbrev pub log_every : ℕ
log_every = 60 * 10 ^ 9

-- What one round meets: a connection, or an error with whether the context is done or the listener
-- closed, whether the error is temporary, the time, and whether the sleep ran to its end.
pub data Event : Type 0 where
  connection : ℕ → Event
  failure : (closed temporary : Bool) (now : ℕ) (slept : Bool) → Event

-- What the loop does: hand a connection over, report failed accepts, sleep.
pub data Action : Type 0 where
  handled : ℕ → Action
  reported : (failed delay : ℕ) → Action
  slept_for : ℕ → Action

-- The loop goes on, returned nil, or returned the accept error.
pub data Exit : Type 0 where
  serving stopped broken : Exit

-- `last_log_at` is `none` for Go's zero time.
pub record LoopState : Type 0 where
  pub delay : ℕ
  pub retries : ℕ
  pub last_log_at : Option ℕ

abbrev pub fresh : LoopState
fresh = record { delay = 0; retries = 0; last_log_at = none }

-- `lastLogAt.IsZero() || t.Sub(lastLogAt) >= logEvery`
abbrev is_due : Option ℕ → ℕ → Bool
is_due none t = true
is_due (some at) t = leb (at + log_every) t

-- The next delay: 5 ms, then twice the last one, 1 s at most.
unfoldable pub next_delay : ℕ → ℕ
next_delay d = if d == 0 then min_delay else if ltb max_delay (d * 2) then max_delay else d * 2

-- A temporary error: the new state and what is done about it, the sleep included.
unfoldable pub retry : LoopState → ℕ → LoopState × List Action
unfolding next_delay
retry s now =
    let d = next_delay s.delay in
    if is_due s.last_log_at now
    then (
      record { delay = d; retries = 0; last_log_at = some now },
      reported (s.retries + 1) d ∷ slept_for d ∷ [],
    )
    else (
      record { delay = d; retries = s.retries + 1; last_log_at = s.last_log_at },
      slept_for d ∷ [],
    )

-- One round of the `for`.
unfoldable pub round : LoopState → Event → LoopState × List Action × Exit
unfolding retry
round s (connection c) = (record s { delay = 0 }, handled c ∷ [], serving)
round s (failure closed temporary now slept) =
    if closed
    then (s, [], stopped)
    else if not temporary
    then (s, [], broken)
    else let (s', acts) = retry s now in (s', acts, if slept then serving else stopped)

-- `Serve`: the last state, all that was done, and how it ended.
unfoldable pub serve : LoopState → List Event → LoopState × List Action × Exit
unfolding round
serve s [] = (s, [], serving)
serve s (e ∷ es) =
    let (s', acts, exit) = round s e in
    let (final, more, end) = serve s' es in
    elim exit [
      | serving ↦ (final, acts ++ more, end)
      | stopped ↦ (s', acts, stopped)
      | broken ↦ (s', acts, broken)
    ]
