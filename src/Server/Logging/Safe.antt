-- ===== src/Server/Logging/Safe.antt =====
-- What the network can put into the log (internal/server/logging.go).
use go_chat_backend.Common.{
  ℕ, ◌/◌, ◌%◌, ◌<◌, ◌≤◌, ◌⊎◌, ◌≡◌, refl, true, List, [], ◌∷◌, arith, length, inl, inr, Bool-cases,
}
use go_chat_backend.Server.Logging.{
  is_id_char, all_id_chars, valid_request_id, hex_digit, hex, Random, new_request_id, request_id,
}

hex_digit-is_id_char : (d : ℕ) → d < 16 → is_id_char (hex_digit d) ≡ true
hex_digit-is_id_char d h = ground arith

abbrev pub AllBytes : List ℕ → Type 0
AllBytes [] = Unit {0}
AllBytes (b ∷ bs) = (b < 256) × AllBytes bs

hex-all_id_chars : (bs : List ℕ) → AllBytes bs → all_id_chars (hex bs) ≡ true
hex-all_id_chars [] h = refl
hex-all_id_chars (b ∷ bs) (h, hs) =
    let high = hex_digit-is_id_char (b / 16) (omega arith) in
    let low = hex_digit-is_id_char (b % 16) (omega arith) in
    ground (arith, high, low, hex-all_id_chars bs hs)

abbrev pub bytes_of : Random → List ℕ
bytes_of r = r.b0 ∷ r.b1 ∷ r.b2 ∷ r.b3 ∷ r.b4 ∷ r.b5 ∷ r.b6 ∷ r.b7 ∷ []

-- 1 to 64 characters, each a letter, a digit, a dash, an underscore or a dot.
abbrev pub IsPrintable : List ℕ → Type 0
IsPrintable id = (1 ≤ length id) × (length id ≤ 64) × (all_id_chars id ≡ true)

new_request_id-IsPrintable : (r : Random) → AllBytes (bytes_of r) → IsPrintable (new_request_id r)
unfolding new_request_id
new_request_id-IsPrintable r h = (omega arith, omega arith, hex-all_id_chars (bytes_of r) h)

valid_request_id-IsPrintable : (id : List ℕ) → valid_request_id id ≡ true → IsPrintable id
unfolding valid_request_id
valid_request_id-IsPrintable [] h = absurd (cc)
valid_request_id-IsPrintable (c ∷ cs) h = (omega arith, ground arith, ground arith)

IsPrintable-valid_request_id : (id : List ℕ) → IsPrintable id → valid_request_id id ≡ true
unfolding valid_request_id
IsPrintable-valid_request_id [] h = absurd (omega (arith, h.0))
IsPrintable-valid_request_id (c ∷ cs) h = ground (arith, h.1, h.2)

-- Whatever a caller sends as X-Request-Id, the id that goes into the log lines and the answer has 1 to
-- 64 characters, each a letter, a digit, a dash, an underscore or a dot; and the id of a caller that
-- is such an id is taken over as it is. The random bytes are bytes.
pub request_id-IsPrintable :
    (header : List ℕ) (r : Random)
    → AllBytes (bytes_of r)
    → IsPrintable (request_id header r) × ((request_id header r ≡ header) ⊎ (¬ IsPrintable header))
unfolding request_id
request_id-IsPrintable header r h = elim (Bool-cases (valid_request_id header)) [
  | inl good ↦ rw good (valid_request_id-IsPrintable header good, inl refl)
  | inr bad ↦ rw bad (
    new_request_id-IsPrintable r h,
    inr (λ p. let e = IsPrintable-valid_request_id header p in cc),
  )
]
