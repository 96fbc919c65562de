-- ===== src/Acceptloop/Backoff.antt =====
-- internal/acceptloop/acceptloop.go: delays, reports and exits over any sequence of events.
use hexplus_v.Base.{
  ℕ, suc, ◌+◌, ◌≤◌, ◌≡◌, refl, ap, ◌⊎◌, inl, inr, true, false, List, [], ◌∷◌, ◌++◌, arith,
  Bool-cases, All, All-append,
}
use hexplus_v.Acceptloop.{
  is_due, Event, connection, failure, Action, handled, reported, slept_for, Exit, serving, stopped,
  broken, LoopState, fresh, min_delay, max_delay, next_delay, retry, round, serve,
}

-- The connections among the events, and among the actions.
abbrev pub arrivals : List Event → List ℕ
arrivals [] = []
arrivals (connection c ∷ es) = c ∷ arrivals es
arrivals (failure _ _ _ _ ∷ es) = arrivals es

abbrev pub handed_over : List Action → List ℕ
handed_over [] = []
handed_over (handled c ∷ acts) = c ∷ handed_over acts
handed_over (reported _ _ ∷ acts) = handed_over acts
handed_over (slept_for _ ∷ acts) = handed_over acts

handed_over-append :
    (acts more : List Action) → handed_over (acts ++ more) ≡ handed_over acts ++ handed_over more
handed_over-append [] more = refl
handed_over-append (handled c ∷ acts) more = ap (◌∷◌ c) (handed_over-append acts more)
handed_over-append (reported _ _ ∷ acts) more = handed_over-append acts more
handed_over-append (slept_for _ ∷ acts) more = handed_over-append acts more

arrivals-cons : (e : Event) (es : List Event) → arrivals (e ∷ es) ≡ arrivals (e ∷ []) ++ arrivals es
arrivals-cons (connection c) es = refl
arrivals-cons (failure _ _ _ _) es = refl

-- The failed accepts among the events of a transient run, and those that the actions report.
abbrev pub failures : List Event → ℕ
failures [] = 0
failures (connection c ∷ es) = failures es
failures (failure _ _ _ _ ∷ es) = suc (failures es)

failures-cons : (e : Event) (es : List Event) → failures (e ∷ es) ≡ failures (e ∷ []) + failures es
failures-cons (connection c) es = omega arith
failures-cons (failure _ _ _ _) es = omega arith

-- `serve` after a first round that goes on.
serve_on :
    (s : LoopState) (e : Event) (es : List Event)
    → (round s e).2 ≡ serving
    → serve s (e ∷ es) ≡ (
      (serve (round s e).0 es).0,
      (round s e).1 ++ (serve (round s e).0 es).1,
      (serve (round s e).0 es).2,
    )
unfolding serve
serve_on s e es h = ground (arith, h)

-- The events of a run that does not end: no error but temporary ones, and no interrupted sleep.
abbrev pub IsTransient : Event → Type 0
IsTransient (connection c) = Unit
IsTransient (failure closed temporary now slept) =
    (closed ≡ false) × (temporary ≡ true) × (slept ≡ true)

transient_round :
    (s : LoopState) (e : Event)
    → IsTransient e
    → ((round s e).2 ≡ serving) × (handed_over (round s e).1 ≡ arrivals (e ∷ []))
unfolding round
transient_round s (connection c) h = (refl, refl)
transient_round s (failure closed temporary now slept) h = ground arith

-- Temporary errors never stop the loop: it goes on, and every connection is handed over, in order
-- and once.
pub serve_transient :
    (s : LoopState) (es : List Event)
    → All IsTransient es
    → ((serve s es).2 ≡ serving) × (handed_over (serve s es).1 ≡ arrivals es)
unfolding serve
serve_transient s [] _ = (refl, refl)
serve_transient s (e ∷ es) (h, hs) =
    let (on, given) = transient_round s e h in
    let (ends, rest) = serve_transient (round s e).0 es hs in
    rw (serve_on s e es on) (
      ends,
      rw
          (
            handed_over-append (round s e).1 (serve (round s e).0 es).1,
            arrivals-cons e es,
            given,
            rest,
          )
          refl,
    )

-- The delays that are slept lie between 5 ms and 1 s.
abbrev pub IsBounded : Action → Type 0
IsBounded (handled c) = Unit
IsBounded (reported n d) = (min_delay ≤ d) × (d ≤ max_delay)
IsBounded (slept_for d) = (min_delay ≤ d) × (d ≤ max_delay)

abbrev HasDelay : LoopState → Type 0
HasDelay s = (s.delay ≡ 0) ⊎ ((min_delay ≤ s.delay) × (s.delay ≤ max_delay))

next_delay-bounds :
    (s : LoopState)
    → HasDelay s
    → (min_delay ≤ next_delay s.delay) × (next_delay s.delay ≤ max_delay)
unfolding next_delay
next_delay-bounds s (inl h) = rw h (omega arith)
next_delay-bounds s (inr h) = ground (arith, h)

retry-IsBounded :
    (s : LoopState) (now : ℕ)
    → HasDelay s
    → HasDelay (retry s now).0 × All IsBounded (retry s now).1
unfolding retry
retry-IsBounded s now h = elim (Bool-cases (is_due s.last_log_at now)) [
  | inl due ↦ rw due (let b = next_delay-bounds s h in (inr b, (b, (b, tt))))
  | inr due ↦ rw due (let b = next_delay-bounds s h in (inr b, (b, tt)))
]

round-IsBounded :
    (s : LoopState) (e : Event) → HasDelay s → HasDelay (round s e).0 × All IsBounded (round s e).1
unfolding round
round-IsBounded s (connection c) h = (inl refl, (tt, tt))
round-IsBounded s (failure closed temporary now slept) h = elim (Bool-cases closed) [
  | inl done ↦ rw done (h, tt)
  | inr open_yet ↦ elim (Bool-cases temporary) [
    | inl soft ↦ rw (open_yet, soft) (retry-IsBounded s now h)
    | inr hard ↦ rw (open_yet, hard) (h, tt)
  ]
]

exit_cases : (x : Exit) → (x ≡ serving) ⊎ (x ≡ stopped) ⊎ (x ≡ broken)
exit_cases serving = inl refl
exit_cases stopped = inr (inl refl)
exit_cases broken = inr (inr refl)

serve_actions :
    (s : LoopState) (e : Event) (es : List Event)
    → ((serve s (e ∷ es)).1 ≡ (round s e).1 ++ (serve (round s e).0 es).1)
      ⊎ ((serve s (e ∷ es)).1 ≡ (round s e).1)
unfolding serve
serve_actions s e es = elim (exit_cases (round s e).2) [
  | inl on ↦ inl (ground (arith, on))
  | inr (inl out) ↦ inr (ground (arith, out))
  | inr (inr out) ↦ inr (ground (arith, out))
]

serve-IsBounded_from : (s : LoopState) (es : List Event) → HasDelay s → All IsBounded (serve s es).1
unfolding serve
serve-IsBounded_from s [] h = tt
serve-IsBounded_from s (e ∷ es) h =
    let (kept, now_bounded) = round-IsBounded s e h in
    let rest = serve-IsBounded_from (round s e).0 es kept in
    elim (serve_actions s e es) [
      | inl all ↦
          rw all (All-append IsBounded (round s e).1 (serve (round s e).0 es).1 now_bounded rest)
      | inr first ↦ rw first now_bounded
    ]

-- Whatever happens, each delay that the loop sleeps or reports lies between 5 ms and 1 s.
pub serve-IsBounded : (es : List Event) → All IsBounded (serve fresh es).1
serve-IsBounded es = serve-IsBounded_from fresh es (inl refl)

abbrev pub reports : List Action → ℕ
reports [] = 0
reports (handled c ∷ acts) = reports acts
reports (reported n _ ∷ acts) = n + reports acts
reports (slept_for _ ∷ acts) = reports acts

reports-append : (acts more : List Action) → reports (acts ++ more) ≡ reports acts + reports more
reports-append [] more = omega arith
reports-append (handled c ∷ acts) more = omega (arith, reports-append acts more)
reports-append (reported n _ ∷ acts) more = omega (arith, reports-append acts more)
reports-append (slept_for _ ∷ acts) more = omega (arith, reports-append acts more)

round_counted :
    (s : LoopState) (e : Event)
    → IsTransient e
    → reports (round s e).1 + (round s e).0.retries ≡ failures (e ∷ []) + s.retries
unfolding round retry
round_counted s (connection c) h = refl
round_counted s (failure closed temporary now slept) (a, b, c) =
    rw (a, b)
      (elim (Bool-cases (is_due s.last_log_at now)) [
        | inl due ↦ rw due (omega arith)
        | inr due ↦ rw due (omega arith)
      ])

-- No failed accept is lost or told twice: over temporary errors, the failures that the log reports
-- and those still counted in `retries` are the failures that happened and those counted before.
pub serve_counted :
    (s : LoopState) (es : List Event)
    → All IsTransient es
    → reports (serve s es).1 + (serve s es).0.retries ≡ failures es + s.retries
unfolding serve
serve_counted s [] _ = refl
serve_counted s (e ∷ es) (h, hs) =
    let here = round_counted s e h in
    let rest = serve_counted (round s e).0 es hs in
    let (on, _) = transient_round s e h in
    rw (serve_on s e es on) (
      omega (
        arith,
        reports-append (round s e).1 (serve (round s e).0 es).1,
        here,
        rest,
        failures-cons e es,
      ))
