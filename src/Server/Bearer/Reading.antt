-- ===== src/Server/Bearer/Reading.antt =====
-- What `bearerToken` of internal/server/auth.go makes of a header.
use go_chat_backend.Common.{
  ℕ, ◌≡◌, ◌≢◌, refl, ap, subst, sym, ◌∙◌, Bool, true, false, none, some, List, [], ◌∷◌, ◌++◌, arith,
  if◌then◌else◌, Bool-cases, inl, inr, append_assoc, append-nil,
}
use go_chat_backend.Server.Bearer.{
  Text, is_space, flush, fields_from, fields, equal_fold, bearer, token_of, bearer_token,
}

-- All the characters are spaces, or none is.
abbrev pub Are : Bool → Text → Type 0
Are b [] = Unit {0}
Are b (c ∷ cs) = (is_space c ≡ b) × Are b cs

-- A word is not empty and has no space.
abbrev pub Word : Text → Type 0
Word w = (w ≢ []) × Are false w

fields_from-spaces : (s rest : Text) → Are true s → fields_from [] (s ++ rest) ≡ fields_from [] rest
unfolding fields_from
fields_from-spaces [] rest a = refl
fields_from-spaces (c ∷ s) rest a = rw (a.0) (fields_from-spaces s rest a.1)

fields_from-word :
    (v w rest : Text) → Are false w → fields_from v (w ++ rest) ≡ fields_from (v ++ w) rest
unfolding fields_from
fields_from-word v [] rest a = ap (λ x. fields_from x rest) (sym (append-nil v))
fields_from-word v (c ∷ w) rest a = rw (a.0) (
    fields_from-word (v ++ c ∷ []) w rest a.1
    ∙ ap (λ x. fields_from x rest) (append_assoc v (c ∷ []) w))

flush-Word : (w : Text) (ws : List Text) → Word w → flush w ws ≡ w ∷ ws
flush-Word [] ws h = absurd (h.0 refl)
flush-Word (c ∷ w) ws h = refl

fields_from-end : (w s : Text) → Word w → Are true s → fields_from w s ≡ w ∷ []
unfolding fields_from
fields_from-end w [] h a = flush-Word w [] h
fields_from-end w (c ∷ s) h a = rw (a.0) (
    flush-Word w _ h
    ∙ ap (λ x. w ∷ x) (sym (ap fields (append-nil s)) ∙ fields_from-spaces s [] a.1))

fields_from-next :
    (w : Text) (c : ℕ) (s rest : Text)
    → Word w
    → Are true (c ∷ s)
    → fields_from w ((c ∷ s) ++ rest) ≡ w ∷ fields rest
unfolding fields_from
fields_from-next w c s rest h a =
    rw (a.0) (flush-Word w _ h ∙ ap (λ x. w ∷ x) (fields_from-spaces s rest a.1))

-- One word, with any space around it.
fields_one :
    (before w after : Text)
    → Are true before
    → Word w
    → Are true after
    → fields (before ++ (w ++ after)) ≡ w ∷ []
fields_one before w after b h a =
    fields_from-spaces before (w ++ after) b
    ∙ fields_from-word [] w after h.1
    ∙ fields_from-end w after h a

fields_two :
    (before v : Text) (c : ℕ) (between w after : Text)
    → Are true before
    → Word v
    → Are true (c ∷ between)
    → Word w
    → Are true after
    → fields (before ++ (v ++ ((c ∷ between) ++ (w ++ after)))) ≡ v ∷ w ∷ []
fields_two before v c between w after b hv s hw a =
    fields_from-spaces before _ b
    ∙ fields_from-word [] v _ hv.1
    ∙ fields_from-next v c between (w ++ after) hv s
    ∙ ap (λ x. v ∷ x) (fields_one [] w after tt hw a)

-- A header of the scheme "Bearer", in any case, and a token is read as that token, and so is the bare
-- token unless it is the word "Bearer"; spaces around the words do not matter. With another scheme
-- there is no token.
pub bearer_token-header :
    (before scheme : Text) (c : ℕ) (between token after : Text)
    → Are true before
    → Word scheme
    → Are true (c ∷ between)
    → Word token
    → Are true after
    → (bearer_token (before ++ (scheme ++ ((c ∷ between) ++ (token ++ after))))
        ≡ (if equal_fold scheme bearer then some token else none))
      × (bearer_token (before ++ (token ++ after))
          ≡ (if equal_fold token bearer then none else some token))
unfolding bearer_token
bearer_token-header before scheme c between token after b hs s ht a = (
  ap token_of (fields_two before scheme c between token after b hs s ht a),
  ap token_of (fields_one before token after b ht a),
)

-- The words that are read.
Words : List Text → Type 0
Words [] = Unit {0}
Words (w ∷ ws) = Word w × Words ws

flush-Words : (w : Text) (ws : List Text) → Are false w → Words ws → Words (flush w ws)
unfolding Words
flush-Words [] ws a h = h
flush-Words (c ∷ w) ws a h = ((cc, a), h)

Are-append : (v : Text) (c : ℕ) → Are false v → is_space c ≡ false → Are false (v ++ c ∷ [])
Are-append [] c a h = (h, tt)
Are-append (d ∷ v) c a h = (a.0, Are-append v c a.1 h)

fields_from-Words : (w s : Text) → Are false w → Words (fields_from w s)
unfolding fields_from Words
fields_from-Words w [] a = flush-Words w [] a tt
fields_from-Words w (c ∷ s) a = elim (Bool-cases (is_space c)) [
  | inl space ↦ rw space (flush-Words w _ a (fields_from-Words [] s tt))
  | inr more ↦ rw more (fields_from-Words (w ++ c ∷ []) s (Are-append w c a more))
]

token_of-Word : (ws : List Text) {t : Text} → Words ws → token_of ws ≡ some t → Word t
unfolding Words
token_of-Word [] h e = absurd (cc)
token_of-Word (v ∷ []) {t} h e = let same : v ≡ t = ground arith in subst Word same h.0
token_of-Word (v ∷ w ∷ []) {t} h e = let same : w ≡ t = ground arith in subst Word same h.1.0
token_of-Word (v ∷ w ∷ u ∷ ws) h e = absurd (cc)

-- Whatever the header is, what is read as its token is a word: not empty, and with no space in it.
pub bearer_token-Word : (header : Text) {t : Text} → bearer_token header ≡ some t → Word t
unfolding bearer_token
bearer_token-Word header e = token_of-Word (fields header) (fields_from-Words [] header tt) e
