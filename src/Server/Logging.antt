-- ===== src/Server/Logging.antt =====
-- The request id, the access log and the recovery (internal/server/logging.go). A text is the list of
-- its code points: a text with a letter outside of ASCII is refused, whatever its count of bytes.
pub mod Safe
mod Tests
use go_chat_backend.Common.{
  ℕ, ◌+◌, ◌/◌, ◌%◌, Bool, true, false, not, ◌&&◌, ◌||◌, Option, none, some, List, [], ◌∷◌, ltb, leb,
  if◌then◌else◌, ◌==◌, length, ◌-◌,
}

abbrev pub max_request_id_len : ℕ
max_request_id_len = 64

-- What an id may be made of.
abbrev pub is_id_char : ℕ → Bool
is_id_char c =
    (leb b'a' c && leb c b'z')
    || (leb b'A' c && leb c b'Z')
    || (leb b'0' c && leb c b'9')
    || (c == b'-')
    || (c == b'_')
    || (c == b'.')

abbrev pub all_id_chars : List ℕ → Bool
all_id_chars [] = true
all_id_chars (c ∷ cs) = is_id_char c && all_id_chars cs

abbrev pub is_empty : List ℕ → Bool
is_empty [] = true
is_empty (c ∷ cs) = false

unfoldable pub valid_request_id : List ℕ → Bool
valid_request_id id =
    if is_empty id || ltb max_request_id_len (length id) then false else all_id_chars id

-- encoding/hex, of a byte.
abbrev pub hex_digit : ℕ → ℕ
hex_digit d = if ltb d 10 then b'0' + d else b'a' + d - 10

abbrev pub hex : List ℕ → List ℕ
hex [] = []
hex (b ∷ bs) = hex_digit (b / 16) ∷ hex_digit (b % 16) ∷ hex bs

-- The eight random bytes.
pub record Random : Type 0 where
  pub b0 : ℕ
  pub b1 : ℕ
  pub b2 : ℕ
  pub b3 : ℕ
  pub b4 : ℕ
  pub b5 : ℕ
  pub b6 : ℕ
  pub b7 : ℕ

unfoldable pub new_request_id : Random → List ℕ
new_request_id r = hex (r.b0 ∷ r.b1 ∷ r.b2 ∷ r.b3 ∷ r.b4 ∷ r.b5 ∷ r.b6 ∷ r.b7 ∷ [])

-- The id of a request, which goes into its log lines and into the header of its answer.
unfoldable pub request_id : List ℕ → Random → List ℕ
request_id header r = if valid_request_id header then header else new_request_id r

-- How a finished request is written.
pub data Line : Type 0 where
  quiet failed rejected normal : Line

-- `machine_route` is whether the route is one of quietWhenHealthy.
unfoldable pub request_logger : Bool → ℕ → Line
request_logger machine_route status =
    if machine_route && ltb status 400
    then quiet
    else if leb 500 status
    then failed
    else if leb 400 status
    then rejected
    else normal

-- What a handler ends with: an answer's status, or a panic, which may be a client that hung up.
pub data Outcome : Type 0 where
  answers : ℕ → Outcome
  panics : Bool → Outcome

-- The status that goes out, if any, and the count of panics. A response that has begun is not modelled.
unfoldable pub recovery : Outcome → ℕ → Option ℕ × ℕ
recovery (answers status) count = (some status, count)
recovery (panics true) count = (none, count)
recovery (panics false) count = (some 500, count + 1)
