-- ===== src/Proxy/Allowlist.antt =====
-- internal/proxy/handler.go: which upstream a client can reach.
use hexplus_v.Base.{
  ℕ, ◌≡◌, refl, sym, ap, ◌∙◌, ◌≢◌, ◌⊎◌, inl, inr, Bool, true, false, some, [], ◌∷◌, ◌++◌, map,
  arith, Bool-cases, length, drop,
}
use mathlib.Core.Path.{subst}
use mathlib.Core.Option.{some-injective}
use hexplus_v.Proxy.{
  Handler, Outcome, connect, dial_upstream, handle_conn, host_half, is_allowed, is_present,
  to_lower,
}
use hexplus_v.Proxy.Header.{before, behind, crlf, find_header}
use hexplus_v.Text.{
  Text, codes, has_prefix, has_prefix-append, text_eq, text_eq_iff, text_mem, trim_space,
}
use hexplus_v.Text.Lines.{Lacks}

-- The host half of an address is one of this machine's names.
abbrev pub IsLocal : Text → Type 0
IsLocal target =
    (map to_lower (host_half target) ≡ codes "127.0.0.1")
    ⊎ ((map to_lower (host_half target) ≡ codes "0.0.0.0")
        ⊎ (map to_lower (host_half target) ≡ codes "localhost"))

one_of_three : (s a b c : Text) → text_mem s (a ∷ b ∷ c ∷ []) ≡ true → (s ≡ a) ⊎ ((s ≡ b) ⊎ (s ≡ c))
unfolding text_mem
one_of_three s a b c h = elim (Bool-cases (text_eq s a)) [
  | inl e ↦ inl ((text_eq_iff s a).0 e)
  | inr n ↦ elim (Bool-cases (text_eq s b)) [
    | inl e ↦ inr (inl ((text_eq_iff s b).0 e))
    | inr m ↦ inr (inr ((text_eq_iff s c).0 (ground (arith, rw (n, m) at h))))
  ]
]

is_allowed-IsLocal : (target : Text) → is_allowed target ≡ true → IsLocal target
unfolding is_allowed
is_allowed-IsLocal target h =
    one_of_three (map to_lower (host_half target)) (codes "127.0.0.1") (codes "0.0.0.0")
      (codes "localhost") h

dial_upstream_target :
    (h : Handler) (dials : Text → Bool) (writes drained : Bool) (target : Text)
    → (dial_upstream h dials writes drained target).dialled ≡ some target
unfolding dial_upstream
dial_upstream_target h dials writes drained target = ground arith

connect_reach :
    (h : Handler) (dials : Text → Bool) (writes drained : Bool) (named target : Text)
    → (connect h dials writes drained named).dialled ≡ some target
    → (target ≡ h.cfg.default_host) ⊎ ((target ≡ named) × IsLocal target)
unfolding connect
connect_reach h dials writes drained [] target e = inl (
    some-injective target h.cfg.default_host
      (sym e ∙ dial_upstream_target h dials writes drained h.cfg.default_host))
connect_reach h dials writes drained (c ∷ named) target e =
    elim (Bool-cases (is_allowed (c ∷ named))) [
      | inl ok ↦
          let same =
            some-injective target (c ∷ named)
              (sym (rw ok at e) ∙ dial_upstream_target h dials writes drained (c ∷ named)) in
          inr (same, rw same (is_allowed-IsLocal (c ∷ named) ok))
      | inr bad ↦ absurd (ground (arith, rw bad at e))
    ]

-- Whatever a client sends, the proxy dials either the host that the operator has set, or the value of
-- the client's X-Real-Host header, and then its host half is 127.0.0.1, 0.0.0.0 or localhost, but
-- for the case of its letters.
pub handle_conn_reach :
    (h : Handler) (dials : Text → Bool) (writes : Bool) (head target : Text)
    → (handle_conn h dials writes (some head)).dialled ≡ some target
    → (target ≡ h.cfg.default_host)
      ⊎ ((target ≡ find_header head (codes "X-Real-Host")) × IsLocal target)
unfolding handle_conn
handle_conn_reach h dials writes [] target e = absurd (ground (arith, e))
handle_conn_reach h dials writes (c ∷ head) target e =
    connect_reach h dials writes (is_present (find_header (c ∷ head) (codes "X-Split")))
      (find_header (c ∷ head) (codes "X-Real-Host")) target e

-- The first occurrence of a text that begins with a code point lies behind a part without it.
has_prefix_Lacks :
    (x : ℕ) (p : Text) (c : ℕ) (s : Text) → c ≢ x → has_prefix (x ∷ p) (c ∷ s) ≡ false
unfolding has_prefix
has_prefix_Lacks x p c s n = ground arith

drop_prefix : (p t : Text) → drop (length p) (p ++ t) ≡ t
drop_prefix [] t = refl
drop_prefix (c ∷ p) t = drop_prefix p t

behind-append : (x : ℕ) (p pre t : Text) → Lacks x pre → behind (x ∷ p) (pre ++ x ∷ p ++ t) ≡ some t
unfolding behind
behind-append x p [] t _ = rw (has_prefix-append (x ∷ p) t) (ap some (drop_prefix p t))
behind-append x p (c ∷ pre) t (n, rest) =
    rw (has_prefix_Lacks x p c (pre ++ x ∷ p ++ t) n) (behind-append x p pre t rest)

before-append : (x : ℕ) (p v t : Text) → Lacks x v → before (x ∷ p) (v ++ x ∷ p ++ t) ≡ some v
unfolding before
before-append x p [] t _ = rw (has_prefix-append (x ∷ p) t)
before-append x p (c ∷ v) t (n, rest) =
    rw (has_prefix_Lacks x p c (v ++ x ∷ p ++ t) n, before-append x p v t rest)

-- A header with its value is found behind text without an X.
find_header-append :
    (name pre value rest : Text)
    → Lacks b'X' pre
    → Lacks b'\r' value
    → find_header (pre ++ (b'X' ∷ name ++ codes ": ") ++ (value ++ crlf ++ rest)) (b'X' ∷ name)
      ≡ trim_space value
unfolding find_header
find_header-append name pre value rest no_x no_cr = rw (
  behind-append b'X' (name ++ codes ": ") pre (value ++ crlf ++ rest) no_x,
  before-append b'\r' (b'\n' ∷ []) value rest no_cr,
)

dial_upstream_served :
    (h : Handler) (dials : Text → Bool) (writes drained : Bool) (target : Text)
    → dials target ≡ true
    → (dial_upstream h dials writes drained target).sent ≡ some h.response_bytes
      × ((dial_upstream h dials writes drained target).bridged ≡ writes)
unfolding dial_upstream
dial_upstream_served h dials writes drained target e = rw e (refl, refl)

-- A connection to a target serves the client: it dials the target, answers with the configured
-- response, and bridges if that could be written.
abbrev pub Serves : Handler → Text → Bool → Outcome → Type 0
Serves h target writes o =
    (o.dialled ≡ some target) × (o.sent ≡ some h.response_bytes) × (o.bridged ≡ writes)

connect-Serves :
    (h : Handler) (dials : Text → Bool) (writes drained : Bool) (named : Text)
    → named ≢ []
    → is_allowed named ≡ true
    → dials named ≡ true
    → Serves h named writes (connect h dials writes drained named)
unfolding connect
connect-Serves h dials writes drained [] n ok e = absurd (n refl)
connect-Serves h dials writes drained (c ∷ named) n ok e =
    let (sent, bridged) = dial_upstream_served h dials writes drained (c ∷ named) e in
    rw ok (dial_upstream_target h dials writes drained (c ∷ named), sent, bridged)

no_header : (name : Text) → find_header [] (b'X' ∷ name) ≡ []
unfolding find_header has_prefix
no_header name = refl

handle_conn-Serves :
    (h : Handler) (dials : Text → Bool) (writes : Bool) (head : Text)
    → find_header head (codes "X-Real-Host") ≢ []
    → is_allowed (find_header head (codes "X-Real-Host")) ≡ true
    → dials (find_header head (codes "X-Real-Host")) ≡ true
    → Serves h
        (find_header head (codes "X-Real-Host"))
        writes
        (handle_conn h dials writes (some head))
unfolding handle_conn
handle_conn-Serves h dials writes [] n ok e = absurd (n (no_header (codes "-Real-Host")))
handle_conn-Serves h dials writes (c ∷ head) n ok e =
    connect-Serves h dials writes (is_present (find_header (c ∷ head) (codes "X-Split")))
      (find_header (c ∷ head) (codes "X-Real-Host")) n ok e

-- A client that sends, behind text without an X, the line `X-Real-Host: ` with a value up to the next
-- CRLF is connected to that value: if the trimmed value is not empty, is on the allowlist and can be
-- dialled, it is dialled, the client gets the configured response, and the bytes are bridged if the
-- response could be written.
pub named_target-Serves :
    (h : Handler) (dials : Text → Bool) (writes : Bool) (pre value rest : Text)
    → Lacks b'X' pre
    → Lacks b'\r' value
    → trim_space value ≢ []
    → is_allowed (trim_space value) ≡ true
    → dials (trim_space value) ≡ true
    → Serves h (trim_space value) writes (
        handle_conn h dials writes
          (some (pre ++ (codes "X-Real-Host" ++ codes ": ") ++ (value ++ crlf ++ rest))))
named_target-Serves h dials writes pre value rest no_x no_cr n ok e =
    let found = find_header-append (codes "-Real-Host") pre value rest no_x no_cr in
    let head = pre ++ (codes "X-Real-Host" ++ codes ": ") ++ (value ++ crlf ++ rest) in
    subst (λ v. Serves h v writes (handle_conn h dials writes (some head))) found
      (handle_conn-Serves h dials writes head (rw found n) (rw found ok) (rw found e))
