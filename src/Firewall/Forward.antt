-- ===== src/Firewall/Forward.antt =====
-- internal/firewall/forward.go: the FORWARD rules of the tun devices.
pub mod Rules
use hexplus_v.Base.{
  ℕ, Bool, true, false, ◌&&◌, ◌||◌, not, Option, none, some, List, [], ◌∷◌, ◌++◌, map, leb, ◌==◌,
  if◌then◌else◌, length, keep, any,
}
use hexplus_v.Firewall.{delete_copies}
use hexplus_v.Text.{Text, codes, fields, has_prefix, text_eq, text_mem, trim_space}
use hexplus_v.Text.Lines.{newline, split, join}

-- A character that `ifaceRe` allows.
unfoldable pub is_iface_char : ℕ → Bool
is_iface_char c =
    (leb b'A' c && leb c b'Z')
    || (leb b'a' c && leb c b'z')
    || (leb b'0' c && leb c b'9')
    || c == b'_'
    || c == b'.'
    || c == b'-'

-- `ifaceRe.MatchString`
unfoldable pub is_iface : Text → Bool
unfolding is_iface_char
is_iface name =
    (leb 1 (length name) && leb (length name) 15) && not (any (λ c. not (is_iface_char c)) name)

abbrev egress_behind : Text → List Text → Option Text → Option Text
egress_behind tok [] later = none
egress_behind tok (next ∷ rest) later =
    if text_eq tok (codes "dev") then (if is_iface next then some next else none) else later

-- The loop of `parseEgress`.
unfoldable pub egress_in : List Text → Option Text
egress_in [] = none
egress_in (tok ∷ rest) = egress_behind tok rest (egress_in rest)

-- `parseEgress`
unfoldable pub parse_egress : Text → Option Text
unfolding egress_in fields
parse_egress out = egress_in (fields out)

abbrev pub tun_match : Text
tun_match = codes "tun+"

-- `replySpec`
abbrev pub reply_spec : List Text
reply_spec =
    codes "-o"
    ∷ codes "tun+"
    ∷ codes "-m"
    ∷ codes "conntrack"
    ∷ codes "--ctstate"
    ∷ codes "RELATED,ESTABLISHED"
    ∷ codes "-j"
    ∷ codes "ACCEPT"
    ∷ []

-- The rules that block a mail port.
abbrev pub mail_spec : Text → List Text
mail_spec port =
    codes "-i"
    ∷ codes "tun+"
    ∷ codes "-p"
    ∷ codes "tcp"
    ∷ codes "-m"
    ∷ codes "tcp"
    ∷ codes "--dport"
    ∷ port
    ∷ codes "-j"
    ∷ codes "DROP"
    ∷ []

abbrev pub egress_spec : Text → List Text
egress_spec egress =
    codes "-i" ∷ codes "tun+" ∷ codes "-o" ∷ egress ∷ codes "-j" ∷ codes "ACCEPT" ∷ []

-- `ForwardSpecs`
abbrev pub forward_specs : Text → List (List Text)
forward_specs egress =
    mail_spec (codes "25") ∷ mail_spec (codes "110") ∷ egress_spec egress ∷ reply_spec ∷ []

-- The same, last to first.
abbrev pub forward_specs_reversed : Text → List (List Text)
forward_specs_reversed egress =
    reply_spec ∷ egress_spec egress ∷ mail_spec (codes "110") ∷ mail_spec (codes "25") ∷ []

-- `RCLocalLines`
unfoldable pub rc_local_lines : Text → List Text
rc_local_lines egress =
    map (λ spec. codes "iptables -w 5 -I FORWARD 1 " ++ join b' ' spec)
      (forward_specs_reversed egress)

-- `RCLocalPrefixes`
abbrev pub rc_local_prefixes : List Text
rc_local_prefixes =
    codes "iptables -w 5 -I FORWARD 1 -i tun+ "
    ∷ codes "iptables -w 5 -I FORWARD 1 -o tun+ -m conntrack"
    ∷ []

abbrev is_stale : List Text → Text → Bool
is_stale kept l =
    not (text_mem (trim_space l) kept) && any (λ p. has_prefix p (trim_space l)) rc_local_prefixes

-- `DropStaleRCLocal`
unfoldable pub drop_stale_rc_local : Text → List Text → Text
drop_stale_rc_local content kept =
    join newline (keep (λ l. not (is_stale kept l)) (split newline content))

-- `legacyBroadAccept`
abbrev pub legacy_broad_accept : List Text
legacy_broad_accept = codes "-s" ∷ codes "10.8.0.0/16" ∷ codes "-j" ∷ codes "ACCEPT" ∷ []

-- `equal`
unfoldable pub equal : List Text → List Text → Bool
equal [] [] = true
equal (a ∷ s) (b ∷ t) = text_eq a b && equal s t
equal _ _ = false

-- `-i tun+ -o <iface> -j ACCEPT`
unfoldable pub is_egress_spec : List Text → Bool
is_egress_spec (a ∷ b ∷ c ∷ d ∷ e ∷ f ∷ []) =
    text_eq a (codes "-i")
    && text_eq b tun_match
    && text_eq c (codes "-o")
    && is_iface d
    && text_eq e (codes "-j")
    && text_eq f (codes "ACCEPT")
is_egress_spec _ = false

-- `isOurForwardRule`
unfoldable pub is_our_forward_rule : List Text → Bool
unfolding equal is_egress_spec
is_our_forward_rule spec =
    (equal spec legacy_broad_accept || equal spec reply_spec)
    || (equal spec (mail_spec (codes "25")) || equal spec (mail_spec (codes "110")))
    || is_egress_spec spec

module _ {K : Type 0} (check : List Text → K → Bool)
    (insert delete : List Text → K → Option K) where
  -- The first loop of `ApplyForward`.
  unfoldable pub install : List (List Text) → K → K × Bool
  install [] k = (k, true)
  install (spec ∷ specs) k =
      if check spec k
      then install specs k
      else elim (insert spec k) [ none ↦ (k, false) | some k' ↦ install specs k' ]

  -- `ApplyForward`
  unfoldable pub apply_forward : Text → K → K × Bool
  unfolding install
  apply_forward egress k =
      if not (is_iface egress)
      then (k, false)
      else let (k', installed) = install (forward_specs_reversed egress) k in
        if installed
        then (delete_copies check insert delete 32 legacy_broad_accept k', true)
        else (k', false)
