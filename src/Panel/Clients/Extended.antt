-- ===== src/Panel/Clients/Extended.antt =====
-- internal/panel/api_client_ops.go and enforcer.go: that an extended client is not disabled before its
-- new expiry.
use hexplus_v.Base.{
  ℕ, ◌+◌, ◌*◌, ◌^◌, ◌<◌, ◌≡◌, refl, sym, ap, ◌∙◌, inl, inr, Bool, true, false, ◌&&◌, List, [], ◌∷◌,
  arith, ltb, ◌==◌, if◌then◌else◌, Bool-cases, any,
}
use hexplus_v.Base.Int.{ℤ, pos, negsuc, pos_part, ◌+ℤ◌, times, wrap64}
use hexplus_v.Base.Members.{In}
use hexplus_v.Panel.Rows.{ClientRow}
use hexplus_v.Panel.Enforcer.{is_expired, is_over_quota, disable_where, enforce_once}
use hexplus_v.Panel.Clients.{has_id, update_where, later_of, extended, prolonged, extend_expiry}

-- The later one of two times.
abbrev pub max : ℕ → ℕ → ℕ
max a b = if ltb a b then b else a

wrap64-small : (m : ℕ) → m < 2 ^ 63 → wrap64 (pos m) ≡ pos m
wrap64-small m h = ground (arith, h)

times-pos : (k n : ℕ) → times k (pos n) ≡ pos (k * n)
times-pos k n = ground arith

later_of-pos :
    (current : ℤ) (now : ℕ) → later_of current (pos now) ≡ pos (max (pos_part current) now)
later_of-pos (pos a) now = ground arith
later_of-pos (negsuc a) now = ground arith

add-pos : (a b : ℕ) → pos a +ℤ pos b ≡ pos (a + b)
add-pos a b = ground arith

-- The expiry without a wrap.
extended-exact :
    (now n : ℕ) (current : ℤ)
    → pos_part current + 86400 * n < 2 ^ 63
    → now + 86400 * n < 2 ^ 63
    → extended now (pos n) current ≡ pos (max (pos_part current) now + 86400 * n)
unfolding extended
extended-exact now n current h k =
    rw
      (
        times-pos 86400 n,
        wrap64-small (86400 * n) (ground (arith, k)),
        later_of-pos current now,
        add-pos (max (pos_part current) now) (86400 * n),
      )
      (wrap64-small (max (pos_part current) now + 86400 * n) (ground (arith, h, k)))

update_where-In :
    (cid : ℕ) (f : ClientRow → ClientRow) (c : ClientRow) (cs : List ClientRow)
    → In c cs
    → has_id cid c ≡ true
    → In (f c) (update_where cid f cs)
unfolding update_where
update_where-In cid f c [] m h = elim m [ ]
update_where-In cid f c (d ∷ cs) (inl e) h = rw (ap (has_id cid) (sym e) ∙ h) (inl (ap f e))
update_where-In cid f c (d ∷ cs) (inr m) h = elim (Bool-cases (d.id == cid)) [
  | inl k ↦ rw k (inr (update_where-In cid f c cs m h))
  | inr k ↦ rw k (inr (update_where-In cid f c cs m h))
]

In-any :
    (cid : ℕ) (c : ClientRow) (cs : List ClientRow)
    → In c cs
    → has_id cid c ≡ true
    → any (has_id cid) cs ≡ true
In-any cid c [] m h = elim m [ ]
In-any cid c (d ∷ cs) (inl e) h = rw (ap (has_id cid) (sym e) ∙ h) refl
In-any cid c (d ∷ cs) (inr m) h = ground (arith, In-any cid c cs m h)

disable_where-In :
    (test : ClientRow → Bool) (now : ℕ) (c : ClientRow) (cs : List ClientRow)
    → In c cs
    → test c ≡ false
    → In c (disable_where test now cs).0
unfolding disable_where
disable_where-In test now c [] m h = elim m [ ]
disable_where-In test now c (d ∷ cs) (inl e) h = elim (Bool-cases (d.enabled && test d)) [
  | inl k ↦ absurd (ground (arith, k, ap test (sym e) ∙ h))
  | inr k ↦ rw k (inl e)
]
disable_where-In test now c (d ∷ cs) (inr m) h = elim (Bool-cases (d.enabled && test d)) [
  | inl k ↦ rw k (inr (disable_where-In test now c cs m h))
  | inr k ↦ rw k (inr (disable_where-In test now c cs m h))
]

enforce_once-In :
    (now : ℕ) (c : ClientRow) (cs : List ClientRow)
    → In c cs
    → is_expired now c ≡ false
    → is_over_quota c ≡ false
    → In c (enforce_once now cs).0
unfolding enforce_once
enforce_once-In now c cs m e q =
    disable_where-In is_over_quota now c (disable_where (is_expired now) now cs).0
      (disable_where-In (is_expired now) now c cs m e) q

-- An extension by n days, if nothing overflows, moves the expiry of the client to n days after the later
-- one of now and its old expiry; the sweep of the enforcer at any time before now plus n days leaves the
-- client as the extension made it, unless it is over its quota.
pub extend_expiry-lasts :
    (now cid n sweep : ℕ) (c : ClientRow) (cs : List ClientRow)
    → In c cs
    → c.id ≡ cid
    → pos_part c.expires_at + 86400 * n < 2 ^ 63
    → now + 86400 * n < 2 ^ 63
    → sweep < now + 86400 * n
    → is_over_quota c ≡ false
    → (extended now (pos n) c.expires_at ≡ pos (max (pos_part c.expires_at) now + 86400 * n))
      × In (prolonged now (pos n) c) (enforce_once sweep (extend_expiry now cid (pos n) cs).0).0
unfolding extend_expiry
extend_expiry-lasts now cid n sweep c cs m id h k l q =
    let exact = extended-exact now n c.expires_at h k in
    let own : has_id cid c ≡ true = ground (arith, id) in
    (
      exact,
      rw (In-any cid c cs m own) (
          enforce_once-In sweep (prolonged now (pos n) c)
            (update_where cid (prolonged now (pos n)) cs)
            (update_where-In cid (prolonged now (pos n)) c cs m own) (rw exact (ground (arith, l)))
            q),
    )
