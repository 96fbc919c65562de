-- ===== src/Sslhmux/Detect/Live.antt =====
-- internal/sslhmux/detect.go: what a failed read changes, and what an address looks like.
use hexplus_v.Base.{
  ℕ, ◌≤◌, ◌≡◌, refl, inl, inr, Option, none, some, List, [], ◌∷◌, arith, Bool-cases, Option-cases,
}
use hexplus_v.Maps.{lookup-insert}
use hexplus_v.Sslhmux.Address.{parse_port, join_host_port}
use hexplus_v.Sslhmux.Detect.{
  Host, Memory, content, unreadable, read_file, ssh_backend, loopback_host, first_port, sshd_port,
  is_port_word,
}
use hexplus_v.Text.{Text, text_eq_refl, fields}
use hexplus_v.Text.Lines.{split, newline}

-- A host on which no file can be read any more, as when descriptors run out.
abbrev pub starved : Host → Host
starved host = record host { read_conf = λ path. unreadable; tunnel_config = none }

pub read_file-starved :
    (host : Host) (path : Text) (m : Memory) (c : Text)
    → host.read_conf path ≡ content c
    → ((read_file host path m).1 ≡ some c)
      × ((read_file (starved host) path (read_file host path m).0).1 ≡ some c)
unfolding read_file
read_file-starved host path m c e =
    ground (arith, e, lookup-insert path path c m.last_conf, text_eq_refl path)

abbrev pub IsPort : ℕ → Type 0
IsPort n = (1 ≤ n) × (n ≤ 65535)

pub parse_port-IsPort : (s : Text) {n : ℕ} → parse_port s ≡ some n → IsPort n
unfolding parse_port
parse_port-IsPort s h = ground arith

sshd_port-IsPort : (ws : List Text) {n : ℕ} → sshd_port ws ≡ some n → IsPort n
unfolding sshd_port
sshd_port-IsPort [] h = cc
sshd_port-IsPort (w ∷ []) h = cc
sshd_port-IsPort (w ∷ v ∷ ws) h = elim (Bool-cases (is_port_word w)) [
  | inl e ↦ parse_port-IsPort v (rw e at h)
  | inr e ↦ absurd (none_some (rw e at h))
]
  where
    none_some : {k : ℕ} → ◌≡◌ {A = Option ℕ} none (some k) → ⊥
    none_some e = cc

first_port-IsPort : (ls : List Text) {n : ℕ} → first_port sshd_port ls ≡ some n → IsPort n
unfolding first_port
first_port-IsPort [] h = cc
first_port-IsPort (l ∷ ls) h = elim (Option-cases (sshd_port (fields l))) [
  | inl e ↦ first_port-IsPort ls (ground (arith, e))
  | inr (k, e) ↦ sshd_port-IsPort (fields l) (ground (arith, e))
]

-- Whatever sshd_config holds, the SSH backend is the loopback address with a port in range.
pub ssh_backend-IsPort :
    (o : Option Text) → (n : ℕ) × IsPort n × (ssh_backend o ≡ join_host_port loopback_host n)
unfolding ssh_backend
ssh_backend-IsPort none = (22, omega arith, refl)
ssh_backend-IsPort (some c) = elim (Option-cases (first_port sshd_port (split newline c))) [
  | inl e ↦ (22, omega arith, rw e)
  | inr (n, e) ↦ (n, first_port-IsPort (split newline c) e, rw e)
]
