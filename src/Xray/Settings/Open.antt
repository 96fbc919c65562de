-- ===== src/Xray/Settings/Open.antt =====
-- internal/xray/proto_simple.go behind internal/panel/enforcer.go: when the SOCKS inbound asks for no
-- password.
use hexplus_v.Base.{
  ℕ, ◌≡◌, refl, inl, inr, Bool, false, ◌&&◌, not, List, [], ◌∷◌, map, arith, Bool-cases, keep, any,
}
use hexplus_v.Panel.Rows.{ClientRow}
use hexplus_v.Panel.Enforcer.{enforce_once}
use hexplus_v.Panel.Enforcer.Sweep.{swept, is_flipped, enforce_once-swept}
use hexplus_v.Text.{codes, text_eq}
use hexplus_v.Xray.Settings.{
  Settings, vless, vmess, trojan, shadowsocks, hysteria2, wireguard, http, socks, dokodemo,
  address_only, has_account, account, auth_for, build_socks_settings,
}

abbrev pub is_open : Settings → Bool
is_open (socks auth accounts udp) = text_eq auth (codes "noauth")
is_open (vless cs d) = false
is_open (vmess cs) = false
is_open (trojan cs) = false
is_open (shadowsocks m p n cs) = false
is_open (hysteria2 us) = false
is_open (wireguard s ps) = false
is_open (http accounts) = false
is_open (dokodemo a p n) = false
is_open (address_only a) = false

accounts_open :
    (cs : List ClientRow)
    → text_eq (auth_for (map account (keep has_account cs))) (codes "noauth")
      ≡ not (any has_account cs)
unfolding text_eq
accounts_open [] = refl
accounts_open (c ∷ cs) = elim (Bool-cases (has_account c)) [
  | inl e ↦ rw e refl
  | inr e ↦ rw (e, accounts_open cs) refl
]

-- No client has an account after the sweep.
swept_none :
    (now : ℕ) (cs : List ClientRow)
    → any (λ c. has_account c && not (is_flipped now c)) cs ≡ any has_account (map (swept now) cs)
swept_none now [] = refl
swept_none now (c ∷ cs) = elim (Bool-cases (is_flipped now c)) [
  | inl e ↦ rw (e, swept_none now cs) (ground arith)
  | inr e ↦ rw (e, swept_none now cs) (ground arith)
]

-- The SOCKS inbound is open to everyone exactly if no enabled client with an email has a password; in
-- particular the sweep that disables the last of these clients opens it.
pub enforce_once-is_open :
    (now : ℕ) (cs : List ClientRow)
    → (is_open (build_socks_settings cs) ≡ not (any has_account cs))
      × (is_open (build_socks_settings (enforce_once now cs).0)
          ≡ not (any (λ c. has_account c && not (is_flipped now c)) cs))
unfolding build_socks_settings
enforce_once-is_open now cs = (
  accounts_open cs,
  rw ((enforce_once-swept now cs).0, swept_none now cs) (accounts_open (map (swept now) cs)),
)
