-- ===== src/Panel/Enforcer/Sweep.antt =====
-- internal/panel/enforcer.go: what the sweep leaves, row by row.
use hexplus_v.Base.{
  ℕ, ◌≡◌, refl, ◌∙◌, ◌⊎◌, inl, inr, Bool, true, false, ◌&&◌, ◌||◌, List, [], ◌∷◌, map, arith,
  if◌then◌else◌, Bool-cases, tally, All,
}
use hexplus_v.Base.Int.{pos, ◌<ℤ◌, ◌≤ℤ◌}
use hexplus_v.Panel.Rows.{ClientRow}
use hexplus_v.Panel.Enforcer.{is_expired, is_over_quota, enforce_once}

-- A client that may stay enabled.
abbrev pub MayServe : ℕ → ClientRow → Type 0
MayServe now c =
    ((c.expires_at ≤ℤ pos 0) ⊎ (pos now <ℤ c.expires_at))
    × ((c.quota_bytes ≤ℤ pos 0) ⊎ (pos c.used_bytes <ℤ c.quota_bytes))

-- What the sweep should make of one row.
abbrev pub swept : ℕ → ClientRow → ClientRow
swept now c =
    if c.enabled && (is_expired now c || is_over_quota c)
    then record c { enabled = false; updated_at = now }
    else c

abbrev pub is_flipped : ℕ → ClientRow → Bool
is_flipped now c = c.enabled && (is_expired now c || is_over_quota c)

-- The two updates one after the other are one pass over the rows: each row that is enabled and
-- expired or over its quota is disabled and stamped, no other row changes, and the result counts
-- the rows that changed.
pub enforce_once-swept :
    (now : ℕ) (cs : List ClientRow)
    → ((enforce_once now cs).0 ≡ map (swept now) cs)
      × ((enforce_once now cs).1 ≡ tally (is_flipped now) cs)
unfolding enforce_once
enforce_once-swept now [] = (refl, refl)
enforce_once-swept now (c ∷ cs) =
    ground (arith, (enforce_once-swept now cs).0, (enforce_once-swept now cs).1)

swept_on : (now : ℕ) (c : ClientRow) → (swept now c).enabled ≡ true → MayServe now (swept now c)
swept_on now c h = ground arith

swept_lem : (now : ℕ) (c : ClientRow) → ((swept now c).enabled ≡ false) ⊎ MayServe now (swept now c)
swept_lem now c = elim (Bool-cases (swept now c).enabled) [
  | inl e ↦ inr (swept_on now c e)
  | inr e ↦ inl e
]

swept_idle : (now : ℕ) (c : ClientRow) → is_flipped now (swept now c) ≡ false
swept_idle now c = ground arith

swept_all_idle :
    (now : ℕ) (cs : List ClientRow)
    → (map (swept now) (map (swept now) cs) ≡ map (swept now) cs)
      × (tally (is_flipped now) (map (swept now) cs) ≡ 0)
swept_all_idle now [] = (refl, refl)
swept_all_idle now (c ∷ cs) =
    let (same, none_flipped) = swept_all_idle now cs in
    let idle = swept_idle now c in (rw (idle, same) refl, rw (idle, none_flipped) refl)

-- After a sweep every client is disabled or has neither expired nor used up its quota.
pub enforce_once_sound :
    (now : ℕ) (cs : List ClientRow)
    → All (λ c. (c.enabled ≡ false) ⊎ MayServe now c) (enforce_once now cs).0
enforce_once_sound now cs = rw (enforce_once-swept now cs).0 (each cs)
  where
    each :
        (ds : List ClientRow) → All (λ c. (c.enabled ≡ false) ⊎ MayServe now c) (map (swept now) ds)
    each [] = tt
    each (d ∷ ds) = (swept_lem now d, each ds)

-- A second sweep at the same time changes nothing, so it does not reload xray.
pub enforce_once_idem :
    (now : ℕ) (cs : List ClientRow)
    → enforce_once now (enforce_once now cs).0 ≡ ((enforce_once now cs).0, 0)
enforce_once_idem now cs = rw (enforce_once-swept now cs).0 (
    let (rows, count) = enforce_once-swept now (map (swept now) cs) in
    let (same, idle) = swept_all_idle now cs in λ i. ((rows ∙ same) i, (count ∙ idle) i))
