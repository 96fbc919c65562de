-- ===== src/Ovpnguard/Conf/Injected.antt =====
-- internal/ovpnguard/conf.go: putting the management lines in and taking them out again.
use hexplus_v.Base.{
  ◌≡◌, refl, ◌∙◌, inl, inr, Bool, true, false, not, List, [], ◌∷◌, arith, ◌==◌, keep, keep-append,
  All, All-imp, All-join,
}
use hexplus_v.Ovpnguard.Conf.{inject_lines, strip_lines}
use hexplus_v.Text.{Text, text_eq_iff, text_mem, trim_right_end, trim_right_idem, trim_space}
use hexplus_v.Text.Lines.{join_end, join-split, Lacks, split, newline, split-ne-nil}
use hexplus_v.Ovpnguard.Conf.Appended.{
  IsPlain, body, blank, split-body, keep-nil, keep-All_id, keep-All, All-self, All-split, present,
  missing, inject_lines-cases, split-appended, All-present, present-appended,
}

-- After an injection every line is there.
present-inject_lines :
    (c : Text) (ls : List Text)
    → All IsPlain ls
    → All (λ l. present (inject_lines c ls) l ≡ true) ls
present-inject_lines c ls plain = elim (inject_lines-cases c ls) [
  | inl (none_missing, same) ↦ rw same (All-present (present c) ls none_missing)
  | inr (some_missing, out) ↦ rw out (present-appended c ls plain some_missing)
]

-- Injecting the lines a second time changes nothing.
pub inject_lines_idem :
    (c : Text) (ls : List Text)
    → All IsPlain ls
    → inject_lines (inject_lines c ls) ls ≡ inject_lines c ls
inject_lines_idem c ls plain = elim (inject_lines-cases (inject_lines c ls) ls) [
  | inl (_, same) ↦ same
  | inr (some_missing, _) ↦ absurd (
      some_missing (
        keep-nil (λ l. not (present (inject_lines c ls) l)) ls
          (All-imp (λ l. present (inject_lines c ls) l ≡ true)
            (λ l. not (present (inject_lines c ls) l) ≡ false) ls (λ l h. rw h)
            (present-inject_lines c ls plain))))
]

-- A line that is kept by a strip.
abbrev stays : List Text → Text → Bool
stays ls l = not (text_mem (trim_space l) ls)

keep-stays :
    (ls xs : List Text) → All (λ l. text_mem (trim_space l) ls ≡ false) xs → keep (stays ls) xs ≡ xs
keep-stays ls xs h =
    keep-All_id (stays ls) xs (
      All-imp (λ l. text_mem (trim_space l) ls ≡ false) (λ l. stays ls l ≡ true) xs (λ l e. rw e) h)

strip_own : (c : Text) (ls : List Text) → All IsPlain ls → keep (stays ls) (missing c ls) ≡ []
strip_own c ls plain = keep-nil (stays ls) (missing c ls) (
    keep-All (λ l. not (present c l)) (λ l. stays ls l ≡ false) ls
      (All-join IsPlain (λ l. text_mem l ls ≡ true) (λ l. stays ls l ≡ false) ls
        (λ l h e. rw (h.2, e)) plain (All-self ls)))

empty_stays : (ls : List Text) → All IsPlain ls → stays ls [] ≡ true
unfolding text_mem trim_space
empty_stays [] _ = refl
empty_stays (l ∷ ls) ((h, _, _), hs) = ground (arith, text_eq_iff [] l, empty_stays ls hs)

-- Stripping what was injected gives the content back, up to newlines at its end, if none of its
-- lines was one of those to inject.
pub strip-inject :
    (c : Text) (ls : List Text)
    → All IsPlain ls
    → All (λ l. text_mem (trim_space l) ls ≡ false) (split newline c)
    → body (strip_lines (inject_lines c ls) ls) ≡ body c
unfolding strip_lines
strip-inject c ls plain none_ours = elim (inject_lines-cases c ls) [
  | inl (_, same) ↦ rw (same, keep-stays ls (split newline c) none_ours, join-split newline c)
  | inr (ne, out) ↦
      let add = missing c ls in
      let (k, cut) = split-body c in
      rw
        (
          out,
          split-appended c add ne (
              All-imp IsPlain (Lacks newline) add (λ l h. h.1)
                (keep-All (λ l. not (present c l)) IsPlain ls plain)),
          keep-append,
          keep-append,
          strip_own c ls plain,
          empty_stays ls plain,
          keep-stays ls (split newline (body c))
              (All-split (λ l. text_mem (trim_space l) ls ≡ false) (split newline (body c))
                (blank k) (rw cut at none_ours)).0,
          join_end newline (split newline (body c)) (split-ne-nil newline (body c)),
          join-split newline (body c),
        )
        (trim_right_end (λ d. d == newline) (body c) newline refl
          ∙ trim_right_idem (λ d. d == newline) c)
]
