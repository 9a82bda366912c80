-- ===== src/Server/Bearer.antt =====
-- The token of an Authorization header (`bearerToken` of internal/server/auth.go). A text is the list
-- of its code points.
pub mod Reading
use go_chat_backend.Common.{
  ℕ, ◌+◌, Bool, true, false, ◌&&◌, ◌||◌, Option, none, some, List, [], ◌∷◌, ◌++◌, ltb, leb,
  if◌then◌else◌, ◌==◌,
}

abbrev pub Text : Type 0
Text = List ℕ

-- unicode.IsSpace
unfoldable pub is_space : ℕ → Bool
is_space c =
    (leb 0x9 c && leb c 0xd)
    || (c == 0x20)
    || (c == 0x85)
    || (c == 0xa0)
    || (c == 0x1680)
    || (leb 0x2000 c && leb c 0x200a)
    || (c == 0x2028)
    || (c == 0x2029)
    || (c == 0x202f)
    || (c == 0x205f)
    || (c == 0x3000)

-- A word that has ended, unless it is empty.
abbrev pub flush : Text → List Text → List Text
flush [] ws = ws
flush (c ∷ cs) ws = (c ∷ cs) ∷ ws

-- strings.Fields, with the word that is being read.
unfoldable pub fields_from : Text → Text → List Text
fields_from w [] = flush w []
fields_from w (c ∷ cs) =
    let ended = flush w (fields_from [] cs) in
    let longer = fields_from (w ++ c ∷ []) cs in if is_space c then ended else longer

abbrev pub fields : Text → List Text
fields = fields_from []

-- A letter of either case is the small one.
pub fold : ℕ → ℕ
fold c = if leb b'A' c && leb c b'Z' then c + 32 else c

-- strings.EqualFold; no letter outside of ASCII folds to one of "bearer".
unfoldable pub equal_fold : Text → Text → Bool
equal_fold [] [] = true
equal_fold [] (d ∷ ds) = false
equal_fold (c ∷ cs) [] = false
equal_fold (c ∷ cs) (d ∷ ds) = (fold c == fold d) && equal_fold cs ds

abbrev pub bearer : Text
bearer = b'B' ∷ b'e' ∷ b'a' ∷ b'r' ∷ b'e' ∷ b'r' ∷ []

abbrev pub token_of : List Text → Option Text
token_of [] = none
token_of (t ∷ []) = if equal_fold t bearer then none else some t
token_of (scheme ∷ t ∷ []) = if equal_fold scheme bearer then some t else none
token_of (scheme ∷ t ∷ u ∷ ts) = none

unfoldable pub bearer_token : Text → Option Text
bearer_token header = token_of (fields header)
