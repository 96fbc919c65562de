-- ===== src/Speedlimit/Hooks.antt =====
-- internal/speedlimit/speedlimit.go: the learn-address lines in the server configurations follow the
-- caps.
use mathlib.Core.Path.{subst}
use hexplus_v.Base.{
  ap, ℕ, ◌≡◌, ap, ◌∙◌, refl, sym, inl, inr, Bool, true, false, not, Option, none, some, List, [],
  ◌∷◌, ◌++◌, arith, ◌==◌, Bool-cases, keep, any, All,
}
use hexplus_v.Base.Int.{pos}
use hexplus_v.Speedlimit.{
  Limits, Shaper, ServerConf, Writes, before_rest, change, contains, disable_all, hooked,
  inject_one, inject_server_conf, strip_one, is_hook, keep_limits, learn_address_line, load_all,
  set_limit, strip_server_conf, unhooked, written,
}
use hexplus_v.Text.{Text, text_eq, trim_space, trim_right}
use hexplus_v.Text.Lines.{
  Lacks, join, newline, split, split-join, split-Lacks, split-append, split-Lacks_sep, Lacks-any,
}

-- Whether a line calls the shaper.
abbrev pub has_hook : Text → Bool
has_hook conf = any is_hook (split newline conf)

-- A configuration that can be read calls the shaper.
abbrev pub IsHooked : Option Text → Type 0
IsHooked none = Unit
IsHooked (some conf) = has_hook conf ≡ true

-- A configuration that holds the text of the line has it as a line: it is no comment, and no part of a
-- longer line.
abbrev pub IsWhole : Option Text → Type 0
IsWhole none = Unit
IsWhole (some conf) = contains learn_address_line conf ≡ true → has_hook conf ≡ true

-- A configuration that can be read has no line that calls the shaper.
abbrev pub IsBare : Option Text → Type 0
IsBare none = Unit
IsBare (some conf) = has_hook conf ≡ false

-- With caps on the disk every configuration calls the shaper, without caps none does.
abbrev pub HooksFollow : Option Text → List ServerConf → Type 0
HooksFollow none = All (λ c. IsBare c.content)
HooksFollow (some caps) = All (λ c. IsHooked c.content)

any-middle :
    (p : Text → Bool) (xs ys : List Text) (l : Text)
    → p l ≡ true
    → any p ((xs ++ l ∷ []) ++ ys) ≡ true
any-middle p [] ys l h = rw h refl
any-middle p (x ∷ xs) ys l h = ground (arith, any-middle p xs ys l h)

keep-none : (p : Text → Bool) (ls : List Text) → any p (keep (λ l. not (p l)) ls) ≡ false
keep-none p [] = refl
keep-none p (l ∷ ls) = ground (arith, keep-none p ls)

keep-All : (P : Text → Type 0) (p : Text → Bool) (ls : List Text) → All P ls → All P (keep p ls)
keep-All P p [] _ = tt
keep-All P p (l ∷ ls) (h, hs) = elim (Bool-cases (p l)) [
  | inl e ↦ rw e (h, keep-All P p ls hs)
  | inr e ↦ rw e (keep-All P p ls hs)
]

join-bare :
    (ls : List Text)
    → All (Lacks newline) ls
    → any is_hook ls ≡ false
    → has_hook (join newline ls) ≡ false
join-bare [] _ h = unfold split join trim_space text_eq in refl
join-bare (l ∷ ls) lacks h = rw (split-join newline (l ∷ ls) (λ e. cc) lacks) h

unhooked-IsBare : (conf : Text) → has_hook (unhooked conf) ≡ false
unfolding unhooked
unhooked-IsBare conf =
    join-bare (keep (λ l. not (is_hook l)) (split newline conf))
      (keep-All (Lacks newline) (λ l. not (is_hook l)) (split newline conf)
        (split-Lacks newline conf))
      (keep-none is_hook (split newline conf))

module _ (P : Option Text → Type 0) where
  before_rest-All :
      (c : ServerConf) (r : List ServerConf × Bool)
      → P c.content
      → (r.1 ≡ true → All (λ d. P d.content) r.0)
      → (before_rest c r).1 ≡ true
      → All (λ d. P d.content) (before_rest c r).0
  before_rest-All c (cs, done) here rest ok = (here, rest ok)

  written-All :
      (c : ServerConf) (conf : Text) (cs : List ServerConf) (r : List ServerConf × Bool)
      → P (some conf)
      → (r.1 ≡ true → All (λ d. P d.content) r.0)
      → (written c conf cs r).1 ≡ true
      → All (λ d. P d.content) (written c conf cs r).0
  written-All c conf cs r here rest ok = elim (Bool-cases c.writable) [
    | inl e ↦
        rw e (
          before_rest-All (record { content = some conf; writable = true }) r here rest
            (rw e at ok))
    | inr e ↦ absurd (ground (arith, rw e at ok))
  ]

has_hook-line :
    (s l : Text)
    → Lacks newline l
    → is_hook l ≡ true
    → has_hook (s ++ newline ∷ l ++ newline ∷ []) ≡ true
has_hook-line s l lacks h =
    ap (any is_hook) lines ∙ any-middle is_hook (split newline s) (split newline []) l h
  where
    lines :
        split newline ((s ++ newline ∷ l) ++ newline ∷ [])
        ≡ (split newline s ++ l ∷ []) ++ split newline []
    lines =
        split-append newline (s ++ newline ∷ l) []
        ∙ ap (λ z. z ++ split newline [])
            (split-append newline s l
              ∙ ap (λ z. split newline s ++ z) (split-Lacks_sep newline l lacks))

hooked-IsHooked : (conf : Text) → has_hook (hooked conf) ≡ true
unfolding hooked trim_space text_eq
hooked-IsHooked conf =
    has_hook-line (trim_right (λ c. c == newline) conf) learn_address_line
      (Lacks-any newline learn_address_line refl) refl

inject_one-IsHooked :
    (c : ServerConf) (o : Option Text) (cs : List ServerConf) (r : List ServerConf × Bool)
    → c.content ≡ o
    → IsWhole o
    → (r.1 ≡ true → All (λ d. IsHooked d.content) r.0)
    → (inject_one c o cs r).1 ≡ true
    → All (λ d. IsHooked d.content) (inject_one c o cs r).0
inject_one-IsHooked c none cs r e whole rest ok =
    before_rest-All IsHooked c r (subst IsHooked (sym e) tt) rest ok
inject_one-IsHooked c (some conf) cs r e whole rest ok =
    elim (Bool-cases (contains learn_address_line conf)) [
      | inl has ↦
          rw has
            (before_rest-All IsHooked c r (subst IsHooked (sym e) (whole has)) rest (rw has at ok))
      | inr lacks ↦
          rw lacks
            (written-All IsHooked c (hooked conf) cs r (hooked-IsHooked conf) rest (rw lacks at ok))
    ]

inject_server_conf-IsHooked :
    (cs : List ServerConf)
    → All (λ c. IsWhole c.content) cs
    → (inject_server_conf cs).1 ≡ true
    → All (λ c. IsHooked c.content) (inject_server_conf cs).0
unfolding inject_server_conf
inject_server_conf-IsHooked [] whole ok = tt
inject_server_conf-IsHooked (c ∷ cs) (w, whole) ok =
    inject_one-IsHooked c c.content cs (inject_server_conf cs) refl w
      (inject_server_conf-IsHooked cs whole) ok

strip_one-IsBare :
    (c : ServerConf) (o : Option Text) (cs : List ServerConf) (r : List ServerConf × Bool)
    → c.content ≡ o
    → (r.1 ≡ true → All (λ d. IsBare d.content) r.0)
    → (strip_one c o cs r).1 ≡ true
    → All (λ d. IsBare d.content) (strip_one c o cs r).0
strip_one-IsBare c none cs r e rest ok =
    before_rest-All IsBare c r (subst IsBare (sym e) tt) rest ok
strip_one-IsBare c (some conf) cs r e rest ok =
    written-All IsBare c (unhooked conf) cs r (unhooked-IsBare conf) rest ok

strip_server_conf-IsBare :
    (cs : List ServerConf)
    → (strip_server_conf cs).1 ≡ true
    → All (λ c. IsBare c.content) (strip_server_conf cs).0
unfolding strip_server_conf
strip_server_conf-IsBare [] ok = tt
strip_server_conf-IsBare (c ∷ cs) ok =
    strip_one-IsBare c c.content cs (strip_server_conf cs) refl (strip_server_conf-IsBare cs) ok

keep_limits_hooks :
    (w : Writes) (m : Limits) (s : Shaper)
    → All (λ c. IsWhole c.content) s.servers
    → (keep_limits w m s).1 ≡ true
    → HooksFollow (keep_limits w m s).0.conf (keep_limits w m s).0.servers
unfolding keep_limits disable_all
keep_limits_hooks w [] s whole ok = elim (Bool-cases w.removed) [
  | inl e ↦ rw e (strip_server_conf-IsBare s.servers (rw e at ok))
  | inr e ↦ absurd (ground (arith, rw e at ok))
]
keep_limits_hooks w (e ∷ m) s whole ok = elim (Bool-cases w.deployed) [
  | inl d ↦ elim (Bool-cases w.saved) [
    | inl v ↦ rw (d, v) (inject_server_conf-IsHooked s.servers whole (rw (d, v) at ok))
    | inr v ↦ absurd (ground (arith, rw (d, v) at ok))
  ]
  | inr d ↦ absurd (ground (arith, rw d at ok))
]

-- When `SetLimit` returns no error, the server configurations follow the caps: with a cap left, every
-- configuration that can be read has the learn-address line as a line of its own, up to space around it,
-- if no configuration held the text only inside another line, such as a comment, before; and with no
-- cap left, no line of a configuration that can be read is it.
pub set_limit-HooksFollow :
    (w : Writes) (key : Text) (n : ℕ) (s : Shaper)
    → All (λ c. IsWhole c.content) s.servers
    → (set_limit w key (pos n) s).1 ≡ true
    → HooksFollow (set_limit w key (pos n) s).0.conf (set_limit w key (pos n) s).0.servers
unfolding set_limit
set_limit-HooksFollow w key n s whole ok =
    keep_limits_hooks w (change key n (load_all s.conf)) s whole ok
