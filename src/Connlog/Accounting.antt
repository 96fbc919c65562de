-- ===== src/Connlog/Accounting.antt =====
-- internal/connlog/connlog.go: what is written over any sequence of calls.
use hexplus_v.Base.{
  ℕ, suc, ◌+◌, ◌≤◌, ◌≡◌, inl, inr, true, false, Option, none, some, List, [], ◌∷◌, ◌++◌, arith,
  if◌then◌else◌, Bool-cases, tally,
}
use mathlib.Core.Path.{subst}
use hexplus_v.Connlog.{is_throttled, Entry, Throttle, entry_of, log_line}
use hexplus_v.Maps.{insert, lookup-insert}
use hexplus_v.Text.{Text, text_eq, text_eq_iff}

-- A call: its key and its time.
abbrev pub Call : Type 0
Call = Text × ℕ

-- A line that was written: its key, its time and the number that it reports.
pub record Line : Type 0 where
  pub key : Text
  pub at : ℕ
  pub similar : ℕ

abbrev pub written : Text → ℕ → Option ℕ → List Line
written key at none = []
written key at (some n) = record { key = key; at = at; similar = n } ∷ []

-- The state and the lines after some calls.
unfoldable pub run : List Call → Throttle → Throttle × List Line
run [] t = (t, [])
run ((key, now) ∷ calls) t =
    let (t', out) = log_line key now t in
    let (final, lines) = run calls t' in (final, written key now out ++ lines)

-- The calls of a key, and what its lines account for: themselves and those that they report.
abbrev pub calls_of : Text → List Call → ℕ
calls_of k = tally (λ c. text_eq c.0 k)

abbrev pub accounted : Text → List Line → ℕ
accounted k [] = 0
accounted k (l ∷ ls) = (if text_eq l.key k then suc l.similar else 0) + accounted k ls

abbrev pub pending : Text → Throttle → ℕ
pending k t = (entry_of k t).suppressed

entry_of-insert :
    (k key : Text) (w : ℕ) (m : List (Text × Entry)) (e : Entry)
    → entry_of k (record { window = w; entries = insert key e m })
      ≡ (if text_eq key k then e else entry_of k (record { window = w; entries = m }))
unfolding entry_of
entry_of-insert k key w m e = ground (arith, lookup-insert key k e m)

-- The states behind a call that is held back and one that is written.
abbrev held : Text → Throttle → Throttle
held key t = record t {
  entries =
      insert key
        (record { next = (entry_of key t).next; suppressed = (entry_of key t).suppressed + 1 })
        t.entries;
}

abbrev renewed : Text → ℕ → Throttle → Throttle
renewed key now t = record t {
  entries = insert key (record { next = some (now + t.window); suppressed = 0 }) t.entries;
}

log_line-held :
    (key : Text) (now : ℕ) (t : Throttle)
    → is_throttled (entry_of key t).next now ≡ true
    → log_line key now t ≡ (held key t, none)
unfolding log_line
log_line-held key now t e = rw e

log_line-renewed :
    (key : Text) (now : ℕ) (t : Throttle)
    → is_throttled (entry_of key t).next now ≡ false
    → log_line key now t ≡ (renewed key now t, some (entry_of key t).suppressed)
unfolding log_line
log_line-renewed key now t e = rw e

module _ (k key : Text) (now : ℕ) (t : Throttle) where
  entry_of-held : entry_of k (held key t) ≡ (
      if text_eq key k
      then record { next = (entry_of key t).next; suppressed = (entry_of key t).suppressed + 1 }
      else entry_of k t)
  entry_of-held = entry_of-insert k key t.window t.entries _

  entry_of-renewed : entry_of k (renewed key now t) ≡ (
      if text_eq key k
      then record { next = some (now + t.window); suppressed = 0 }
      else entry_of k t)
  entry_of-renewed = entry_of-insert k key t.window t.entries _

  step_accounted :
      accounted k (written key now (log_line key now t).1) + pending k (log_line key now t).0
      ≡ pending k t + (if text_eq key k then 1 else 0)
  step_accounted = elim (Bool-cases (is_throttled (entry_of key t).next now)) [
    | inl e ↦ ground (arith, log_line-held key now t e, text_eq_iff key k, entry_of-held)
    | inr e ↦ ground (arith, log_line-renewed key now t e, text_eq_iff key k, entry_of-renewed)
  ]

accounted-append :
    (k : Text) (ls ms : List Line) → accounted k (ls ++ ms) ≡ accounted k ls + accounted k ms
accounted-append k [] ms = omega arith
accounted-append k (l ∷ ls) ms = omega (arith, accounted-append k ls ms)

-- No call is lost: the calls of a key are those that its lines account for, and those that its next
-- line will report.
pub run-accounted :
    (k : Text) (calls : List Call) (t : Throttle)
    → accounted k (run calls t).1 + pending k (run calls t).0 ≡ pending k t + calls_of k calls
unfolding run
run-accounted k [] t = omega arith
run-accounted k ((key, now) ∷ calls) t = ground (
  arith,
  step_accounted k key now t,
  run-accounted k calls (log_line key now t).0,
  accounted-append k (written key now (log_line key now t).1) (run calls (log_line key now t).0).1,
)

-- Lines of one key stand a window apart, and the first not before `from`.
abbrev pub IsSpaced : Text → ℕ → ℕ → List Line → Type 0
IsSpaced k window from [] = Unit
IsSpaced k window from (l ∷ ls) =
    if text_eq l.key k
    then (from ≤ l.at) × IsSpaced k window (l.at + window) ls
    else IsSpaced k window from ls

-- When the key can be written again.
abbrev pub quiet_until : Text → Throttle → ℕ
quiet_until k t = elim (entry_of k t).next [ none ↦ 0 | some n ↦ n ]

log_line-window : (key : Text) (now : ℕ) (t : Throttle) → (log_line key now t).0.window ≡ t.window
unfolding log_line
log_line-window key now t = ground arith

step-IsSpaced :
    (k key : Text) (now : ℕ) (t : Throttle) (ls : List Line)
    → IsSpaced k t.window (quiet_until k (log_line key now t).0) ls
    → IsSpaced k t.window (quiet_until k t) (written key now (log_line key now t).1 ++ ls)
step-IsSpaced k key now t ls h = elim (Bool-cases (is_throttled (entry_of key t).next now)) [
  | inl e ↦
      rw (log_line-held key now t e)
        (subst (λ n. IsSpaced k t.window n ls) (held_quiet e) (rw (log_line-held key now t e) at h))
  | inr e ↦ rw (log_line-renewed key now t e) (spaced e (rw (log_line-renewed key now t e) at h))
]
  where
    held_quiet :
        is_throttled (entry_of key t).next now ≡ true → quiet_until k (held key t) ≡ quiet_until k t
    held_quiet e = ground (arith, entry_of-held k key now t, text_eq_iff key k)

    spaced :
        is_throttled (entry_of key t).next now ≡ false
        → IsSpaced k t.window (quiet_until k (renewed key now t)) ls
        → IsSpaced k t.window
            (quiet_until k t)
            (record { key = key; at = now; similar = (entry_of key t).suppressed } ∷ ls)
    spaced e r = elim (Bool-cases (text_eq key k)) [
      | inl same ↦ rw same (
        ground (arith, (text_eq_iff key k).0 same),
        subst (λ n. IsSpaced k t.window n ls) (ground (arith, entry_of-renewed k key now t)) r,
      )
      | inr other ↦
          rw other
            (subst (λ n. IsSpaced k t.window n ls) (ground (arith, entry_of-renewed k key now t)) r)
    ]

-- Two lines of one key are written at least a window apart, whatever else is logged, and the first
-- not before the key's entry allows it.
pub run-IsSpaced :
    (k : Text) (calls : List Call) (t : Throttle)
    → IsSpaced k t.window (quiet_until k t) (run calls t).1
unfolding run
run-IsSpaced k [] t = tt
run-IsSpaced k ((key, now) ∷ calls) t =
    step-IsSpaced k key now t (run calls (log_line key now t).0).1 (
      subst
        (λ w.
          IsSpaced k w (quiet_until k (log_line key now t).0) (run calls (log_line key now t).0).1)
        (log_line-window key now t) (run-IsSpaced k calls (log_line key now t).0))
