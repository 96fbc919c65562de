-- ===== src/Ovpnguard/Management/Exchange.antt =====
-- internal/ovpnguard/mgmt.go: a `status 2` exchange, whatever notifications OpenVPN mixes into it.
use hexplus_v.Base.{
  ℕ, zero, suc, ◌<◌, ◌≡◌, refl, inl, inr, true, false, not, none, some, List, [], ◌∷◌, ◌++◌, map,
  append_assoc, append-nil, arith, Bool-cases, length, keep, All,
}
use hexplus_v.Ovpnguard.Management.{MgmtConn, chomp, is_async, read_line, status_loop, status}
use hexplus_v.Text.{Text, codes, text_eq, has_prefix}

-- The lines that OpenVPN sends, without line ends and notifications.
abbrev pub spoken : List Text → List Text
spoken ls = keep (λ l. not (is_async l)) (map chomp ls)

-- A line of a reply's body: neither its end nor an error.
abbrev pub IsBody : Text → Type 0
IsBody l = (text_eq l (codes "END") ≡ false) × (has_prefix (codes "ERROR:") l ≡ false)

read_line-spoken :
    (ls : List Text) (l : Text) (tail : List Text)
    → spoken ls ≡ l ∷ tail
    → (rest : List Text) × (read_line ls ≡ some (l, rest))
      × (spoken rest ≡ tail)
      × (length rest < length ls)
unfolding read_line
read_line-spoken [] l tail e = cc
read_line-spoken (x ∷ ls) l tail e = elim (Bool-cases (is_async (chomp x))) [
  | inl skipped ↦
      let (rest, found, left, less) = read_line-spoken ls l tail (rw skipped at e) in
      (rest, rw skipped found, left, omega arith)
  | inr taken ↦
      let same : chomp x ∷ spoken ls ≡ l ∷ tail = rw taken at e in
      (ls, rw taken (ground arith), ground arith, omega arith)
]

status_loop-body :
    (fuel : ℕ) (incoming lines body tail : List Text)
    → length incoming < fuel
    → spoken incoming ≡ body ++ codes "END" ∷ tail
    → All IsBody body
    → (rest : List Text) × (status_loop fuel incoming lines ≡ some (lines ++ body, rest))
      × (spoken rest ≡ tail)
unfolding status_loop
status_loop-body zero incoming lines body tail h e b = absurd (omega arith)
status_loop-body (suc fuel) incoming lines [] tail h e b =
    let (rest, found, left, less) = read_line-spoken incoming (codes "END") tail e in
    (rest, rw (status_loop, found) (rw (append-nil lines) (unfold text_eq in refl)), left)
status_loop-body (suc fuel) incoming lines (l ∷ body) tail h e ((not_end, not_error), b) =
    let (rest, found, left, less) = read_line-spoken incoming l (body ++ codes "END" ∷ tail) e in
    let (rest', looped, left') =
      status_loop-body fuel rest (lines ++ l ∷ []) body tail (omega arith) left b in
    (
      rest',
      rw (status_loop, found, not_end, not_error, looped, append_assoc lines (l ∷ []) body),
      left',
    )

reply_of :
    (m : MgmtConn) {lines rest : List Text}
    → m.writable ≡ true
    → status_loop (suc (length m.incoming)) m.incoming [] ≡ some (lines, rest)
    → status m ≡ some (lines, record m { incoming = rest; sent = m.sent ++ codes "status 2" ∷ [] })
unfolding status
reply_of m w e = ground (arith, e)

no_reply_of :
    (m : MgmtConn) → status_loop (suc (length m.incoming)) m.incoming [] ≡ none → status m ≡ none
unfolding status
no_reply_of m e = ground (arith, e)

-- On a connection that takes commands, and however many notifications come in between, `status`
-- returns exactly the lines of a reply's body that ends with END and holds no error line. What is
-- left to read is what OpenVPN sends after the reply's end, and one command was sent.
pub status-spoken :
    (m : MgmtConn) (body tail : List Text)
    → m.writable ≡ true
    → spoken m.incoming ≡ body ++ codes "END" ∷ tail
    → All IsBody body
    → (m' : MgmtConn) × (status m ≡ some (body, m'))
      × (spoken m'.incoming ≡ tail)
      × (m'.sent ≡ m.sent ++ codes "status 2" ∷ [])
status-spoken m body tail w e b =
    let (rest, looped, left) =
      status_loop-body (suc (length m.incoming)) m.incoming [] body tail (omega arith) e b in
    (
      record m { incoming = rest; sent = m.sent ++ codes "status 2" ∷ [] },
      reply_of m w looped,
      left,
      refl,
    )

status_loop_error :
    (fuel : ℕ) (incoming lines body tail : List Text) (l : Text)
    → length incoming < fuel
    → spoken incoming ≡ body ++ l ∷ tail
    → All IsBody body
    → text_eq l (codes "END") ≡ false
    → has_prefix (codes "ERROR:") l ≡ true
    → status_loop fuel incoming lines ≡ none
unfolding status_loop
status_loop_error zero incoming lines body tail l h e b n x = absurd (omega arith)
status_loop_error (suc fuel) incoming lines [] tail l h e b n x =
    let (rest, found, left, less) = read_line-spoken incoming l tail e in
    rw (status_loop, found, n, x)
status_loop_error (suc fuel) incoming lines (y ∷ body) tail l h e ((not_end, not_error), b) n x =
    let (rest, found, left, less) = read_line-spoken incoming y (body ++ l ∷ tail) e in
    rw (status_loop, found, not_end, not_error)
      (status_loop_error fuel rest (lines ++ y ∷ []) body tail l (omega arith) left b n x)

-- An error line before the end of the reply makes `status` fail: no partial list of sessions comes
-- out.
pub status_error :
    (m : MgmtConn) (body tail : List Text) (l : Text)
    → spoken m.incoming ≡ body ++ l ∷ tail
    → All IsBody body
    → text_eq l (codes "END") ≡ false
    → has_prefix (codes "ERROR:") l ≡ true
    → status m ≡ none
status_error m body tail l e b n x =
    no_reply_of m
      (status_loop_error (suc (length m.incoming)) m.incoming [] body tail l (omega arith) e b n x)
