-- ===== src/Broker/Publish.antt =====
-- Publishing to the other nodes (Publish, msgID and messageSubject of internal/broker/broker.go).
-- JetStream is a parameter. The node is wired to a broker only if there is one, so the receiver is
-- not nil here. A text is the list of its code points; trace headers are left out.
pub mod Stream
pub mod Lossless
pub mod Genuine
pub mod Window
pub mod Samples
mod Tests
use Prim.Native.String.{String}
use go_chat_backend.Common.{
  ℕ, ◌+◌, ◌*◌, ◌≡◌, Bool, true, false, ◌&&◌, ◌||◌, Option, none, some, List, [], ◌∷◌, ◌++◌, ◌⊎◌,
  ltb, if◌then◌else◌, ◌==◌,
}
use go_chat_backend.Common.Decimal.{format_uint}
use go_chat_backend.Event.{MessageCreated, year_10000}
use go_chat_backend.Outbox.Relay.{Publish}

pub record Envelope : Type 0 where
  pub event : MessageCreated
  pub user_ids : List ℕ
  pub from : String

-- The bytes of a message: the JSON of an envelope, or other bytes.
pub data Bytes : Type 0 where
  json_envelope : Envelope → Bytes
  other_bytes : String → Bytes

-- json.Marshal refuses only a time that it cannot write.
unfoldable pub encode_envelope : Envelope → Option Bytes
encode_envelope e = if ltb e.event.created_at year_10000 then some (json_envelope e) else none

abbrev pub outbox_prefix : List ℕ
outbox_prefix = b'o' ∷ b'u' ∷ b't' ∷ b'b' ∷ b'o' ∷ b'x' ∷ b'-' ∷ []

abbrev pub msg_id : ℕ → List ℕ
msg_id outbox_id = outbox_prefix ++ format_uint outbox_id

abbrev pub message_subject_prefix : List ℕ
message_subject_prefix =
    b'c' ∷ b'h' ∷ b'a' ∷ b't' ∷ b'.' ∷ b'm' ∷ b'e' ∷ b's' ∷ b's' ∷ b'a' ∷ b'g' ∷ b'e' ∷ b'.' ∷ []

abbrev pub message_subject : ℕ → List ℕ
message_subject conversation_id = message_subject_prefix ++ format_uint conversation_id

-- In nanoseconds.
abbrev pub duplicate_window : ℕ
duplicate_window = 5 * 60 * 1_000_000_000

-- A message as the stream keeps it.
pub record Stored : Type 0 where
  pub subject : List ℕ
  pub payload : Bytes
  pub message_id : List ℕ
  pub stored_at : ℕ

abbrev pub same_text : List ℕ → List ℕ → Bool
same_text [] [] = true
same_text [] (d ∷ ds) = false
same_text (c ∷ cs) [] = false
same_text (c ∷ cs) (d ∷ ds) = (c == d) && same_text cs ds

abbrev pub has_message : List ℕ → List Stored → Bool
has_message id [] = false
has_message id (m ∷ ms) = same_text m.message_id id || has_message id ms

-- The stream took a message of the id less than a window ago.
abbrev pub is_recent : ℕ → List ℕ → List Stored → Bool
is_recent now id [] = false
is_recent now id (m ∷ ms) =
    (same_text m.message_id id && ltb now (m.stored_at + duplicate_window)) || is_recent now id ms

-- The stream CHAT with its duplicate window. It takes a message or not, and acknowledges one that it
-- has; an acknowledgement may get lost. `stored` is all that it has ever taken, also what its MaxAge has
-- removed since: that takes longer than the duplicate window.
pub record JetStream (S : Type 0) : Type 0 where
  pub publish_msg : Stored → S → Bool × S
  pub stored : S → List Stored
  pub stored-publish_msg :
      (m : Stored) (s : S)
      → (stored (publish_msg m s).1 ≡ stored s) ⊎ (stored (publish_msg m s).1 ≡ stored s ++ m ∷ [])
  pub acked-publish_msg :
      (m : Stored) (s : S)
      → (publish_msg m s).0 ≡ true
      → has_message m.message_id (stored (publish_msg m s).1) ≡ true
  pub recent-publish_msg :
      (m : Stored) (s : S)
      → is_recent m.stored_at m.message_id (stored s) ≡ true
      → stored (publish_msg m s).1 ≡ stored s

-- What a node has of the broker when it publishes.
pub record Publisher (S : Type 0) : Type 0 where
  pub js : S
  pub published : ℕ
  pub publish_fails : ℕ

-- The node's name, and when the stream gets the message of a row.
pub record Wiring : Type 0 where
  pub node_id : String
  pub now : ℕ → ℕ

module _ {S : Type 0} (jetstream : JetStream S) (w : Wiring) where
  abbrev pub after_publish_msg : Publisher S → Bool × S → Option String × Publisher S
  after_publish_msg b (true, s) = (none, record b { js = s; published = b.published + 1 })
  after_publish_msg b (false, s) =
      (some "publish to nats", record b { js = s; publish_fails = b.publish_fails + 1 })

  abbrev pub outgoing : ℕ → MessageCreated → Bytes → Stored
  outgoing outbox_id ev payload = record {
    subject = message_subject ev.conversation_id;
    payload = payload;
    message_id = msg_id outbox_id;
    stored_at = w.now outbox_id;
  }

  abbrev pub publish_encoded :
      ℕ → MessageCreated → Publisher S → Option Bytes → Option String × Publisher S
  publish_encoded outbox_id ev b none = (some "encode envelope", b)
  publish_encoded outbox_id ev b (some payload) =
      after_publish_msg b (jetstream.publish_msg (outgoing outbox_id ev payload) b.js)

  unfoldable pub broker_publish : Publish (Publisher S)
  broker_publish outbox_id ev user_ids b =
      publish_encoded outbox_id ev b
        (encode_envelope (record { event = ev; user_ids = user_ids; from = w.node_id }))
