-- ===== src/Panel/Enforcer.antt =====
-- internal/panel/enforcer.go: the sweep that disables clients past their expiry or quota. The rows
-- of the table `clients` are a list; a database that fails is a rollback and is left out.
pub mod Sweep
use hexplus_v.Base.{ℕ, suc, ◌+◌, Bool, false, ◌&&◌, not, List, [], ◌∷◌, if◌then◌else◌}
use hexplus_v.Base.Int.{pos, ltb_ℤ}
use hexplus_v.Panel.Rows.{ClientRow}

-- `expires_at > 0 AND expires_at <= ?`
abbrev pub is_expired : ℕ → ClientRow → Bool
is_expired now c = ltb_ℤ (pos 0) c.expires_at && not (ltb_ℤ (pos now) c.expires_at)

-- `quota_bytes > 0 AND used_bytes >= quota_bytes`
abbrev pub is_over_quota : ClientRow → Bool
is_over_quota c = ltb_ℤ (pos 0) c.quota_bytes && not (ltb_ℤ (pos c.used_bytes) c.quota_bytes)

-- `UPDATE clients SET enabled = 0, updated_at = ? WHERE enabled = 1 AND …`: the rows, and how many
-- were changed.
unfoldable pub disable_where : (ClientRow → Bool) → ℕ → List ClientRow → List ClientRow × ℕ
disable_where test now [] = ([], 0)
disable_where test now (c ∷ cs) =
    let (rest, n) = disable_where test now cs in
    if c.enabled && test c
    then (record c { enabled = false; updated_at = now } ∷ rest, suc n)
    else (c ∷ rest, n)

-- `enforceOnce`: the rows after the commit, and the number of flipped ones.
unfoldable pub enforce_once : ℕ → List ClientRow → List ClientRow × ℕ
unfolding disable_where
enforce_once now cs =
    let (after_expiry, n) = disable_where (is_expired now) now cs in
    let (after_quota, m) = disable_where is_over_quota now after_expiry in (after_quota, n + m)
