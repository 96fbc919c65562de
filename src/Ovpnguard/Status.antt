-- ===== src/Ovpnguard/Status.antt =====
-- internal/ovpnguard/decide.go, `parseStatus`: the CLIENT_LIST rows of a `status 2` reply.
pub mod Rows
use hexplus_v.Base.{ℕ, Bool, false, ◌||◌, List, [], ◌∷◌, ◌++◌, ◌==◌, if◌then◌else◌}
use hexplus_v.Base.Int.{ℤ}
use hexplus_v.Ovpnguard.Decide.{Session}
use hexplus_v.Text.{Text, codes, text_eq, has_prefix, trim_right}
use hexplus_v.Text.Lines.{split}
use hexplus_v.Text.Number.{
  Parsed, value, syntax_error, range_error, parse_uint, uint_value, parse_int, value_or_edge,
}

abbrev pub is_cr : ℕ → Bool
is_cr c = c == b'\r'

-- The fields that a session is read from.
unfoldable pub row_session : Text → (real rx since_t username cid : Text) → List Session
row_session inst real rx since_t username cid = elim (parse_uint cid) [
  | value n ↦
      if text_eq username [] || text_eq username (codes "UNDEF")
      then []
      else record {
        instance_name = inst;
        cid = n;
        name = username;
        since = value_or_edge (parse_int since_t);
        real = real;
        rx_bytes = uint_value (parse_uint rx);
        stale = false;
      }
        ∷ []
  | syntax_error ↦ []
  | range_error ↦ []
]

-- A row with at least eleven fields.
unfoldable pub row_fields : Text → List Text → List Session
unfolding row_session
row_fields inst (_ ∷ _ ∷ real ∷ _ ∷ _ ∷ rx ∷ _ ∷ _ ∷ since_t ∷ username ∷ cid ∷ _) =
    row_session inst real rx since_t username cid
row_fields inst _ = []

unfoldable pub parse_row : Text → Text → List Session
unfolding row_fields
parse_row inst l =
    if has_prefix (codes "CLIENT_LIST,") l
    then row_fields inst (split b',' (trim_right is_cr l))
    else []

unfoldable pub parse_status : Text → List Text → List Session
unfolding parse_row
parse_status inst [] = []
parse_status inst (l ∷ ls) = parse_row inst l ++ parse_status inst ls
