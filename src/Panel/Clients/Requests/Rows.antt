-- ===== src/Panel/Clients/Requests/Rows.antt =====
-- internal/panel/api_clients.go, api_client_ops.go and enforcer.go: what becomes of the row of one client.
use hexplus_v.Base.{
  ap, ◌∙◌, ℕ, ◌≡◌, refl, inl, inr, true, false, not, Option, none, some, List, [], ◌∷◌, ◌++◌, map,
  arith, ◌==◌, if◌then◌else◌, Bool-cases, keep, any,
}
use hexplus_v.Panel.Rows.{ClientRow}
use hexplus_v.Panel.Clients.{has_id, update_where}

-- The row with an id.
unfoldable pub client_at : ℕ → List ClientRow → Option ClientRow
client_at x [] = none
client_at x (c ∷ cs) = if c.id == x then some c else client_at x cs

-- What becomes of a row, if it is there.
abbrev pub bind_row : (ClientRow → Option ClientRow) → Option ClientRow → Option ClientRow
bind_row f none = none
bind_row f (some c) = f c

pub bind_row-some : (o : Option ClientRow) → bind_row some o ≡ o
bind_row-some none = refl
bind_row-some (some c) = refl

same_row : (a b c : ℕ) → a == b ≡ true → a == c ≡ true → b == c ≡ true
same_row a b c h k = ground arith

other_row : (a b c : ℕ) → a == b ≡ false → a == c ≡ true → b == c ≡ false
other_row a b c h k = ground arith

-- A change of the row with the id `cid`, seen at the id `x`.
abbrev pub at_row : ℕ → ℕ → (ClientRow → Option ClientRow) → ClientRow → Option ClientRow
at_row cid x f c = if cid == x then f c else some c

pub client_at-update_where :
    (x cid : ℕ) (f : ClientRow → ClientRow) (cs : List ClientRow)
    → ((c : ClientRow) → (f c).id ≡ c.id)
    → client_at x (update_where cid f cs)
      ≡ bind_row (at_row cid x (λ c. some (f c))) (client_at x cs)
unfolding client_at update_where
client_at-update_where x cid f [] same = refl
client_at-update_where x cid f (c ∷ cs) same = elim (Bool-cases (c.id == cid)) [
  | inl e ↦ elim (Bool-cases (c.id == x)) [
    | inl k ↦ rw (e, ap (λ n. n == x) (same c) ∙ k, k, same_row c.id cid x e k) refl
    | inr k ↦ rw (e, ap (λ n. n == x) (same c) ∙ k, k) (client_at-update_where x cid f cs same)
  ]
  | inr e ↦ elim (Bool-cases (c.id == x)) [
    | inl k ↦ rw (e, k, other_row c.id cid x e k) refl
    | inr k ↦ rw (e, k) (client_at-update_where x cid f cs same)
  ]
]

pub client_at-keep :
    (x cid : ℕ) (cs : List ClientRow)
    → client_at x (keep (λ c. not (has_id cid c)) cs)
      ≡ bind_row (at_row cid x (λ c. none)) (client_at x cs)
unfolding client_at
client_at-keep x cid [] = refl
client_at-keep x cid (c ∷ cs) = elim (Bool-cases (c.id == cid)) [
  | inl e ↦ elim (Bool-cases (c.id == x)) [
    | inl k ↦
        rw (e, k, same_row c.id cid x e k)
          (client_at-keep x cid cs ∙ gone (same_row c.id cid x e k) (client_at x cs))
    | inr k ↦ rw (e, k) (client_at-keep x cid cs)
  ]
  | inr e ↦ elim (Bool-cases (c.id == x)) [
    | inl k ↦ rw (e, k, other_row c.id cid x e k) refl
    | inr k ↦ rw (e, k) (client_at-keep x cid cs)
  ]
]
  where
    gone : cid == x ≡ true → (o : Option ClientRow) → bind_row (at_row cid x (λ d. none)) o ≡ none
    gone h none = refl
    gone h (some d) = rw h refl

pub client_at-map :
    (x : ℕ) (f : ClientRow → ClientRow) (cs : List ClientRow)
    → ((c : ClientRow) → (f c).id ≡ c.id)
    → client_at x (map f cs) ≡ bind_row (λ c. some (f c)) (client_at x cs)
unfolding client_at
client_at-map x f [] same = refl
client_at-map x f (c ∷ cs) same = elim (Bool-cases (c.id == x)) [
  | inl k ↦ rw (ap (λ n. n == x) (same c) ∙ k, k) refl
  | inr k ↦ rw (ap (λ n. n == x) (same c) ∙ k, k) (client_at-map x f cs same)
]

pub client_at-append :
    (x : ℕ) (d : ClientRow) (cs : List ClientRow)
    → d.id == x ≡ false
    → client_at x (cs ++ d ∷ []) ≡ client_at x cs
unfolding client_at
client_at-append x d [] other = rw other refl
client_at-append x d (c ∷ cs) other = elim (Bool-cases (c.id == x)) [
  | inl k ↦ rw k refl
  | inr k ↦ rw k (client_at-append x d cs other)
]

-- A change of a row that is not there.
pub client_at_absent :
    (x cid : ℕ) (f : ClientRow → Option ClientRow) (cs : List ClientRow)
    → any (has_id cid) cs ≡ false
    → client_at x cs ≡ bind_row (at_row cid x f) (client_at x cs)
unfolding client_at
client_at_absent x cid f [] lost = refl
client_at_absent x cid f (c ∷ cs) lost = elim (Bool-cases (c.id == cid)) [
  | inl e ↦ absurd (ground (arith, e, lost))
  | inr e ↦ elim (Bool-cases (c.id == x)) [
    | inl k ↦ rw (k, other_row c.id cid x e k) refl
    | inr k ↦ rw k (client_at_absent x cid f cs (ground (arith, e, lost)))
  ]
]
