-- ===== src/Sslhmux/Address.antt =====
-- internal/sslhmux/detect.go: ports and addresses, with what it uses of Go's `net`.
use hexplus_v.Base.{
  ℕ, Bool, ◌&&◌, ◌||◌, not, Option, none, some, [], ◌∷◌, ◌++◌, leb, ◌==◌, if◌then◌else◌, any,
}
use hexplus_v.Base.Int.{ℤ, pos, negsuc}
use hexplus_v.Text.{Text}
use hexplus_v.Text.Number.{format, atoi}

abbrev in_range : ℤ → Option ℕ
in_range (negsuc n) = none
in_range (pos n) = if leb 1 n && leb n 65535 then some n else none

-- `parsePort`
unfoldable pub parse_port : Text → Option ℕ
parse_port s = elim (atoi s) [ none ↦ none | some n ↦ in_range n ]

-- `net.JoinHostPort`: a host with a colon is put in brackets.
unfoldable pub join_host_port : Text → ℕ → Text
join_host_port host port =
    (if any (λ c. c == b':') host then b'[' ∷ (host ++ b']' ∷ []) else host) ++ b':' ∷ format port

-- The parts of a text before and behind a code point that stands in it once or more.
abbrev before_part : ℕ → Option (Text × Text) → Option (Text × Text)
before_part c none = none
before_part c (some (h, r)) = some (c ∷ h, r)

first_cut : ℕ → Text → Option (Text × Text)
first_cut mark [] = none
first_cut mark (c ∷ s) = if c == mark then some ([], s) else before_part c (first_cut mark s)

abbrev or_last_cut : ℕ → ℕ → Text → Option (Text × Text) → Option (Text × Text)
or_last_cut mark c s (some (h, r)) = some (c ∷ h, r)
or_last_cut mark c s none = if c == mark then some ([], s) else none

last_cut : ℕ → Text → Option (Text × Text)
last_cut mark [] = none
last_cut mark (c ∷ s) = or_last_cut mark c s (last_cut mark s)

abbrev contains : ℕ → Text → Bool
contains mark = any (λ c. c == mark)

-- A host in brackets, from behind the `[`: only `:port` may follow the bracket.
bracketed : Option (Text × Text) → Option (Text × Text)
bracketed none = none
bracketed (some (h, [])) = none
bracketed (some (h, c ∷ port)) =
    if c == b':'
      && not (contains b':' port)
      && not (contains b'[' h || contains b'[' port)
      && not (contains b']' port)
    then some (h, port)
    else none

plain_host : Option (Text × Text) → Option (Text × Text)
plain_host none = none
plain_host (some (h, port)) =
    if contains b':' h
      || contains b'[' h
      || contains b']' h
      || contains b'[' port
      || contains b']' port
    then none
    else some (h, port)

-- `net.SplitHostPort`, with `none` for an error
unfoldable pub split_host_port : Text → Option (Text × Text)
unfolding bracketed plain_host first_cut last_cut
split_host_port [] = none
split_host_port (c ∷ s) =
    if c == b'[' then bracketed (first_cut b']' s) else plain_host (last_cut b':' (c ∷ s))
