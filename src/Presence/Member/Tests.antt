-- ===== src/Presence/Member/Tests.antt =====
-- Members of the sorted set (internal/presence/store.go).
use go_chat_backend.Common.{ℕ, ◌≡◌, refl, none, some, List, [], ◌∷◌, arith}
use go_chat_backend.Common.Decimal.{format_from, read_from, parse_uint}
use go_chat_backend.Presence.Member.{member, cut, parse_member}
use go_chat_backend.Presence.Member.RoundTrip.{parse_member-member}

-- The node id "::1".
abbrev ipv6_node : List ℕ
ipv6_node = b':' ∷ b':' ∷ b'1' ∷ []

member-text : member 407 ipv6_node ≡ b'4' ∷ b'0' ∷ b'7' ∷ b':' ∷ b':' ∷ b':' ∷ b'1' ∷ []
unfolding format_from
member-text = refl

no_colon : parse_member (b'4' ∷ b'2' ∷ []) ≡ none
unfolding cut
no_colon = refl

no_number : (parse_member ipv6_node ≡ none) × (parse_member (b'x' ∷ b':' ∷ []) ≡ none)
unfolding cut parse_uint read_from
no_number = (refl, refl)

parse_member-member_example : parse_member (member 407 ipv6_node) ≡ some 407
parse_member-member_example = parse_member-member 407 ipv6_node (omega arith)
