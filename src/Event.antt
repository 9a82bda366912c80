-- ===== src/Event.antt =====
-- The event that the outbox and the broker carry (internal/event/event.go), and its JSON.
use Prim.Native.String.{String}
use go_chat_backend.Common.{ℕ, ◌*◌, Option, none, some, ltb, if◌then◌else◌}

pub record MessageCreated : Type 0 where
  pub message_id : ℕ
  pub conversation_id : ℕ
  pub sender_id : ℕ
  pub sender_name : String
  pub seq : ℕ
  pub content : String
  pub client_msg_id : Option String
  pub created_at : ℕ

-- The text of a payload: the JSON of an event, or text that is no such JSON.
pub data Payload : Type 0 where
  json : MessageCreated → Payload
  other_text : String → Payload

-- The first nanosecond of the year 10000, which time.Time refuses to write as JSON.
abbrev pub year_10000 : ℕ
year_10000 = 253_402_300_800 * 1_000_000_000

unfoldable pub encode : MessageCreated → Option Payload
encode m = if ltb m.created_at year_10000 then some (json m) else none

unfoldable pub decode_message_created : Payload → Option MessageCreated
decode_message_created (json m) = some m
decode_message_created (other_text s) = none
