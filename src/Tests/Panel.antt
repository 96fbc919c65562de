-- ===== src/Tests/Panel.antt =====
-- internal/panel: the bans and the CSRF check on a few requests.
use hexplus_v.Base.{suc, ◌+◌, ◌≤◌, ◌≡◌, refl, ◌↔◌, ◌⊎◌, true, none, [], ◌∷◌, arith, ltb, tally}
use hexplus_v.Panel.Security.{LoginRateLimit, new_ip_tracker, record_failure, wrap_csrf}
use hexplus_v.Panel.Security.Bans.{fail_all, banned_by_window}
use hexplus_v.Panel.Security.Csrf.{
  Visit, request, browse, IsMutation, IsExempt, IsEchoed, browse_passes_iff,
}
use hexplus_v.Text.{Text, codes}

abbrev home : Text
home = codes "192.0.2.1"

abbrev strict : LoginRateLimit
strict = record { failures = 2; window = 600; ban_duration = 3600 }

banned_by_window_example :
    ((record_failure home 650 (fail_all home (100 ∷ []) (new_ip_tracker strict))).1 ≡ true)
    ↔ (2 ≤ suc (tally (λ at. ltb 650 (at + 600)) (100 ∷ [])))
unfolding record_failure hexplus_v.Maps.lookup
banned_by_window_example = banned_by_window strict home (100 ∷ []) 650 (refl, tt) (omega arith)

abbrev visit : Text → Text → Visit
visit header drawn = record {
  method = codes "POST";
  path = codes "/api/inbounds";
  header = header;
  drawn = drawn;
}

browse_passes_iff_example :
    ((wrap_csrf (codes "t2") (
        request
          (browse (visit [] (codes "t1") ∷ []) none)
          (visit (codes "t1") (codes "t2")))).passes
      ≡ true)
    ↔ (¬ (IsMutation (codes "POST"))
        ⊎ (IsExempt (codes "/api/inbounds") ⊎ IsEchoed (codes "t1") (codes "t1")))
browse_passes_iff_example =
    browse_passes_iff (visit [] (codes "t1") ∷ []) (visit (codes "t1") (codes "t2"))
