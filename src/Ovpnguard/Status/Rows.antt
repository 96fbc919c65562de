-- ===== src/Ovpnguard/Status/Rows.antt =====
-- internal/ovpnguard/decide.go, `parseStatus`: a row as OpenVPN prints it is read back.
use hexplus_v.Base.{ℕ, ◌≤◌, ◌≡◌, refl, ◌≢◌, true, false, List, [], ◌∷◌, arith, All, All-imp}
use hexplus_v.Ovpnguard.Decide.{Session}
use hexplus_v.Ovpnguard.Status.{parse_row, row_fields, is_cr}
use hexplus_v.Text.{Text, codes, text_eq_iff, has_prefix, trim_right, trim_right_clean}
use hexplus_v.Text.Lines.{split, join, split-join, Lacks, join-All}
use hexplus_v.Text.Number.{format, parse_uint-format, max_u64, parse_int, int_value}

-- The columns that the guard does not read.
pub record Unread : Type 0 where
  pub common_name : Text
  pub vip : Text
  pub vip6 : Text
  pub tx : Text
  pub since_text : Text
  pub peer_id : Text
  pub cipher : Text

-- The columns of a CLIENT_LIST row, `since_t` being the text of the time.
abbrev pub columns : Session → Text → Unread → List Text
columns s since_t u =
    codes "CLIENT_LIST"
    ∷ u.common_name
    ∷ s.real
    ∷ u.vip
    ∷ u.vip6
    ∷ format s.rx_bytes
    ∷ u.tx
    ∷ u.since_text
    ∷ since_t
    ∷ s.name
    ∷ format s.cid
    ∷ u.peer_id
    ∷ u.cipher
    ∷ []

-- The row that OpenVPN prints for a session.
abbrev pub row : Session → Text → Unread → Text
row s since_t u = join b',' (columns s since_t u)

-- A column as OpenVPN writes it, with no separator and no carriage return.
abbrev pub IsCleanCode : ℕ → Type 0
IsCleanCode c = (c ≢ b',') × (c ≢ b'\r')

abbrev pub IsClean : Text → Type 0
IsClean = All IsCleanCode

row_trimmed :
    (s : Session) (since_t : Text) (u : Unread)
    → All IsClean (columns s since_t u)
    → trim_right is_cr (row s since_t u) ≡ row s since_t u
row_trimmed s since_t u h = trim_right_clean is_cr (row s since_t u) (
    join-All (λ c. is_cr c ≡ false) b',' (columns s since_t u) refl
      (All-imp IsClean (All (λ c. is_cr c ≡ false)) (columns s since_t u)
        (λ x. All-imp IsCleanCode (λ c. is_cr c ≡ false) x (λ c n. ground arith)) h))

split-row :
    (s : Session) (since_t : Text) (u : Unread)
    → All IsClean (columns s since_t u)
    → split b',' (row s since_t u) ≡ columns s since_t u
split-row s since_t u h =
    split-join b',' (columns s since_t u) (λ e. cc)
      (All-imp IsClean (Lacks b',') (columns s since_t u)
        (λ x. All-imp IsCleanCode (λ c. c ≢ b',') x (λ c n. n.0)) h)

row_starts :
    (s : Session) (since_t : Text) (u : Unread)
    → has_prefix (codes "CLIENT_LIST,") (row s since_t u) ≡ true
unfolding has_prefix join
row_starts s since_t u = refl

row_read :
    (s : Session) (since_t : Text) (u : Unread)
    → s.name ≢ []
    → s.name ≢ codes "UNDEF"
    → s.cid ≤ max_u64
    → s.rx_bytes ≤ max_u64
    → parse_int since_t ≡ int_value s.since
    → s.stale ≡ false
    → row_fields s.instance_name (columns s since_t u) ≡ s ∷ []
unfolding row_fields
row_read s since_t u named known cid_fits rx_fits since live = ground (
  arith,
  parse_uint-format s.cid cid_fits,
  parse_uint-format s.rx_bytes rx_fits,
  text_eq_iff s.name [],
  text_eq_iff s.name (codes "UNDEF"),
)

-- The row that OpenVPN prints for a live, authenticated session is read back as that session, on
-- the instance that was asked.
pub parse_row-row :
    (s : Session) (since_t : Text) (u : Unread)
    → All IsClean (columns s since_t u)
    → s.name ≢ []
    → s.name ≢ codes "UNDEF"
    → s.cid ≤ max_u64
    → s.rx_bytes ≤ max_u64
    → parse_int since_t ≡ int_value s.since
    → s.stale ≡ false
    → parse_row s.instance_name (row s since_t u) ≡ s ∷ []
unfolding parse_row
parse_row-row s since_t u clean named known cid_fits rx_fits since live =
    rw (row_starts s since_t u, row_trimmed s since_t u clean, split-row s since_t u clean)
      (row_read s since_t u named known cid_fits rx_fits since live)
