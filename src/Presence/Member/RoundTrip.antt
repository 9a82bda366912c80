-- ===== src/Presence/Member/RoundTrip.antt =====
-- A member of the sorted set names one user on one node (internal/presence/store.go).
use go_chat_backend.Common.{ℕ, ◌≡◌, ◌≤◌, refl, ap, ◌∙◌, some, List, [], ◌∷◌, ◌++◌, arith, suc, sym}
use go_chat_backend.Common.Decimal.{max_uint64, format_uint}
use go_chat_backend.Common.Decimal.RoundTrip.{
  AllDigits, format_from-AllDigits, parse_uint-format_uint,
}
use go_chat_backend.Presence.Member.{member, cut, parse_cut, parse_member}

cut-digits : (w node : List ℕ) → AllDigits w → cut (w ++ b':' ∷ node) ≡ some w
unfolding cut
cut-digits [] node h = refl
cut-digits (c ∷ cs) node h = ground (arith, cut-digits cs node h.1)

-- The user is read back from a member, whatever the name of the node, which may have colons of its
-- own; a user id has 64 bits.
pub parse_member-member :
    (user_id : ℕ) (node : List ℕ)
    → user_id ≤ max_uint64
    → parse_member (member user_id node) ≡ some user_id
parse_member-member user_id node fits =
    ap parse_cut
      (cut-digits (format_uint user_id) node (format_from-AllDigits (suc user_id) user_id [] tt))
    ∙ parse_uint-format_uint user_id fits

append_cancel : (w a b : List ℕ) → w ++ a ≡ w ++ b → a ≡ b
append_cancel [] a b h = h
append_cancel (c ∷ w) a b h = append_cancel w a b (cc)

-- Two members with one text are one user on one node, so that the pair of both may stand for the text.
pub member_injective :
    (u v : ℕ) (n m : List ℕ)
    → u ≤ max_uint64
    → v ≤ max_uint64
    → member u n ≡ member v m
    → (u ≡ v) × (n ≡ m)
member_injective u v n m h k e =
    let read = parse_member-member in
    let users : some u ≡ some v = sym (read u n h) ∙ ap parse_member e ∙ read v m k in
    let same : u ≡ v = cc in
    let texts : member u n ≡ member u m = e ∙ ap (λ w. member w m) (sym same) in
    let rests = append_cancel (format_uint u) (b':' ∷ n) (b':' ∷ m) texts in (same, cc)
