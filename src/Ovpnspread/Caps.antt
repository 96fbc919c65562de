-- ===== src/Ovpnspread/Caps.antt =====
-- internal/ovpnspread/ovpnspread.go: every worker gets the primary's cap.
use hexplus_v.Base.{
  ℕ, ◌^◌, ◌<◌, ◌≡◌, refl, ap, ◌∙◌, ◌≢◌, inl, inr, Bool, false, ◌&&◌, not, List, [], ◌∷◌, arith,
  ◌==◌, if◌then◌else◌, Bool-cases, any, All, All-imp,
}
use hexplus_v.Base.Int.{pos}
use hexplus_v.Maps
use hexplus_v.Ovpninstance.{Instance, workers}
use hexplus_v.Ovpnspread.{sync_from, sync_speed_limit}
use hexplus_v.Speedlimit.{Limits, Shaper, Writes, cap_of, load_all, load_for, main_key, set_limit}
use hexplus_v.Speedlimit.Caps.{IsKey, digits_clean, trim-format}
use hexplus_v.Speedlimit.Refinement.{Succeed, set_limit-update}
use hexplus_v.Speedlimit.Refinement.Loaded.{IsEntries, change-IsEntries, load_all-IsEntries}
use hexplus_v.Text.{Text, codes, has_prefix, text_eq, text_eq_iff}
use hexplus_v.Text.Lines.{newline}
use hexplus_v.Text.Number.{IsDigit, format, format-IsDigit}
use hexplus_v.Text.Trim.{trim_space_clean}

digits_uncommented : (s : Text) → All IsDigit s → has_prefix (codes "#") s ≡ false
unfolding has_prefix
digits_uncommented [] _ = refl
digits_uncommented (c ∷ s) (h, _) = ground arith

digits_current : (s : Text) → All IsDigit s → s ≢ codes "mbps"
digits_current s h e = absurd (omega (arith, (rw e at h).0))

-- The number of an instance is a key that the file of the caps can hold.
format-IsKey : (n : ℕ) → IsKey (format n)
format-IsKey n = record {
  no_mark = All-imp IsDigit (λ c. c ≢ b'=') (format n) (λ c h e. omega arith) (format-IsDigit n);
  no_newline =
      All-imp IsDigit (λ c. c ≢ newline) (format n) (λ c h e. omega arith) (format-IsDigit n);
  trimmed =
      trim_space_clean (format n) (digits_clean (format n) (format-IsDigit n)) ∙ trim-format n;
  clean = digits_clean (format n) (format-IsDigit n);
  uncommented = digits_uncommented (format n) (format-IsDigit n);
  current = digits_current (format n) (format-IsDigit n);
}

cap_of-fits : (k : Text) (m : Limits) → IsEntries m → cap_of k m < 2 ^ 63
unfolding cap_of Maps.lookup
cap_of-fits k [] _ = omega arith
cap_of-fits k ((j, v) ∷ m) ((_, fits), rest) = elim (Bool-cases (text_eq j k)) [
  | inl e ↦ rw (cap_of, e) (fits.1)
  | inr e ↦ rw (cap_of, e) (cap_of-fits k m rest)
]

-- Whether a worker of the key has another cap than the primary.
abbrev is_due : Text → Limits → Instance → Bool
is_due j limits i =
    text_eq (format i.id) j && not (cap_of (format i.id) limits == cap_of main_key limits)

sync_from-caps :
    (w : ℕ → Writes) (limits : Limits) (is : List Instance) (s : Shaper) (j : Text)
    → ((id : ℕ) → Succeed (w id))
    → IsEntries limits
    → load_for (sync_from w limits is s).0.conf j
      ≡ (if any (is_due j limits) is then cap_of main_key limits else load_for s.conf j)
unfolding sync_from
sync_from-caps w limits [] s j done h = refl
sync_from-caps w limits (i ∷ is) s j done h =
    elim (Bool-cases (cap_of (format i.id) limits == cap_of main_key limits)) [
      | inl e ↦ rw e (ground (arith, sync_from-caps w limits is s j done h))
      | inr e ↦ rw e (
          ground (
            arith,
            sync_from-caps w limits is
                (set_limit (w i.id) (format i.id) (pos (cap_of main_key limits)) s).0 j done h,
            set_limit-update (w i.id) (format i.id) (cap_of main_key limits) s j (done i.id) (
                change-IsEntries (format i.id) (cap_of main_key limits) (load_all s.conf)
                  (format-IsKey i.id) (cap_of-fits main_key limits h) (load_all-IsEntries s.conf)),
          ))
    ]

abbrev pub has_key : Text → Instance → Bool
has_key j i = text_eq (format i.id) j

-- A key that need not be written has the primary's cap already.
due-has_key :
    (j : Text) (limits : Limits) (is : List Instance)
    → (if any (is_due j limits) is then cap_of main_key limits else cap_of j limits)
      ≡ (if any (has_key j) is then cap_of main_key limits else cap_of j limits)
due-has_key j limits [] = refl
due-has_key j limits (i ∷ is) =
    ground
      (arith, due-has_key j limits is, (text_eq_iff (format i.id) j).0, ap (λ k. cap_of k limits))

-- After `SyncSpeedLimit`, if the writes of its calls succeed, every worker has the cap of the primary,
-- whatever the file of the caps held, and every other cap in the file is as it was.
pub sync_speed_limit-caps :
    (w : ℕ → Writes) (instances : List Instance) (s : Shaper) (j : Text)
    → ((id : ℕ) → Succeed (w id))
    → load_for (sync_speed_limit w instances s).0.conf j ≡ (
        if any (has_key j) (workers instances) then load_for s.conf main_key else load_for s.conf j)
unfolding sync_speed_limit load_for
sync_speed_limit-caps w instances s j done =
    sync_from-caps w (load_all s.conf) (workers instances) s j done (load_all-IsEntries s.conf)
    ∙ due-has_key j (load_all s.conf) (workers instances)
