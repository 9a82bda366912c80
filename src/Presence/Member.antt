-- ===== src/Presence/Member.antt =====
-- The text of a member of the sorted set: member and parseMember of internal/presence/store.go. A text
-- is the list of its code points.
pub mod RoundTrip
mod Tests
use go_chat_backend.Common.{ℕ, Option, none, some, List, [], ◌∷◌, ◌++◌, if◌then◌else◌, ◌==◌}
use go_chat_backend.Common.Decimal.{format_uint, parse_uint}

-- "userID:nodeID"
abbrev pub member : ℕ → List ℕ → List ℕ
member user_id node = format_uint user_id ++ b':' ∷ node

-- strings.Cut at the first colon: what stands before it, if there is one.
unfoldable pub cut : List ℕ → Option (List ℕ)
cut [] = none
cut (c ∷ cs) =
    let rest : Option (List ℕ) = elim (cut cs) [ none ↦ none | some w ↦ some (c ∷ w) ] in
    if c == b':' then some [] else rest

abbrev pub parse_cut : Option (List ℕ) → Option ℕ
parse_cut none = none
parse_cut (some raw) = parse_uint raw

abbrev pub parse_member : List ℕ → Option ℕ
parse_member m = parse_cut (cut m)
