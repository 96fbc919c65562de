-- ===== src/Ovpnguard/Management/Routing.antt =====
-- internal/ovpnguard/run.go, `(*pass).kill`: a kill goes out on its own instance's connection.
use hexplus_v.Base.{
  Option-cases, ℕ, ◌+◌, ◌≡◌, sym, ap, ◌∙◌, inl, inr, true, false, some, List, [], ◌∷◌, ◌++◌, map,
  append_assoc, append-nil, arith, if◌then◌else◌, Bool-cases, Option-cases, keep,
}
use mathlib.Core.Path.{subst}
use hexplus_v.Maps.{lookup, lookup-insert}
use hexplus_v.Ovpnguard.Decide.{Kill}
use hexplus_v.Ovpnguard.Management.{MgmtConn, client_kill, kill_command, kill_one, kill_all}
use hexplus_v.Text.{Text, text_eq, text_eq_iff}

-- The commands for the kills of one instance, in order.
abbrev pub commands_for : Text → List Kill → List Text
commands_for i ks =
    map (λ k. kill_command k.session.cid) (keep (λ k. text_eq k.session.instance_name i) ks)

-- The instance has a connection that takes commands, and these were sent on it.
abbrev pub Sent : Text → List Text → List (Text × MgmtConn) → Type 0
Sent i commands conns =
    (m : MgmtConn) × (lookup i conns ≡ some m) × (m.sent ≡ commands) × (m.writable ≡ true)

commands_for-cons :
    (i : Text) (k : Kill) (ks : List Kill)
    → commands_for i (k ∷ ks) ≡ commands_for i (k ∷ []) ++ commands_for i ks
commands_for-cons i k ks = ground arith

client_kill-sent :
    (cid : ℕ) (m : MgmtConn)
    → m.writable ≡ true
    → ((client_kill cid m).0.sent ≡ m.sent ++ kill_command cid ∷ [])
      × ((client_kill cid m).0.writable ≡ true)
unfolding client_kill
client_kill-sent cid m w = ground arith

lookup-kill_one_ne :
    (k : Kill) (conns : List (Text × MgmtConn)) (i : Text)
    → text_eq k.session.instance_name i ≡ false
    → lookup i (kill_one k conns).0 ≡ lookup i conns
unfolding kill_one
lookup-kill_one_ne k conns i h = elim (Option-cases (lookup k.session.instance_name conns)) [
  | inl e ↦ ground (arith, e)
  | inr (m, e) ↦
      ground
        (arith, e, lookup-insert k.session.instance_name i (client_kill k.session.cid m).0 conns)
]

kill_one-Sent :
    (k : Kill) (conns : List (Text × MgmtConn)) (i : Text) (cs : List Text)
    → Sent i cs conns
    → Sent i (cs ++ commands_for i (k ∷ [])) (kill_one k conns).0
unfolding kill_one
kill_one-Sent k conns i cs (m, found, sent, w) =
    elim (Bool-cases (text_eq k.session.instance_name i)) [
      | inl same ↦
          let (sent', w') = client_kill-sent k.session.cid m w in
          (
            (client_kill k.session.cid m).0,
            ground (
              arith,
              (text_eq_iff k.session.instance_name i).0 same,
              lookup-insert k.session.instance_name i (client_kill k.session.cid m).0 conns,
            ),
            rw (same, sent') (ap (λ c. c ++ kill_command k.session.cid ∷ []) sent),
            w',
          )
      | inr other ↦
          (m, lookup-kill_one_ne k conns i other ∙ found, rw (other, append-nil cs) sent, w)
    ]

-- Whatever the other connections do, the commands that an instance gets on a connection that takes
-- commands are those of the kills of its own sessions, all of them and in order.
pub kill_all-Sent :
    (ks : List Kill) (conns : List (Text × MgmtConn)) (done : ℕ) (i : Text) (cs : List Text)
    → Sent i cs conns
    → Sent i (cs ++ commands_for i ks) (kill_all ks conns done).0
unfolding kill_all
kill_all-Sent [] conns done i cs h = rw (append-nil cs) h
kill_all-Sent (k ∷ ks) conns done i cs h =
    let (conns', ended) = kill_one k conns in
    let more =
      kill_all-Sent ks conns' (if ended then done + 1 else done) i (cs ++ commands_for i (k ∷ []))
        (kill_one-Sent k conns i cs h) in
    subst (λ c. Sent i c (kill_all ks conns' (if ended then done + 1 else done)).0)
      (append_assoc cs (commands_for i (k ∷ [])) (commands_for i ks)
        ∙ ap (λ c. cs ++ c) (sym (commands_for-cons i k ks)))
      more
