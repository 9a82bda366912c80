-- ===== src/Database/Messages.antt =====
-- Messages and their sequence numbers (internal/database/conversations.go).
pub mod Atomic
pub mod Gapless
pub mod Retry
pub mod Gap
mod Tests
use Prim.Native.String.{String}
use mathlib.Core.List.{reverse}
use text.Mathlib.Text.{◌==◌ as str_eq}
use go_chat_backend.Common.{
  ℕ, zero, suc, ◌+◌, Bool, true, false, not, ◌&&◌, ◌||◌, Option, none, some, List, [], ◌∷◌, ◌++◌,
  ltb, if◌then◌else◌, ◌==◌, take,
}
use go_chat_backend.Common.Rows.{select, find, update, order_by}
use go_chat_backend.Event.{MessageCreated, Payload, encode}
use go_chat_backend.Database.{
  Conversation, Message, Outbox, User, Tables, Db, Env, Error, Result, ok, err, Exec, pure, raise,
  continue, check, statement, gets, transaction, ◌>>=◌, ◌>>◌, conversation_not_found,
  duplicated_key, record_not_found, failed,
}

abbrev pub is_none {ℓ} : {A : Type ℓ} → Option A → Bool
is_none none = true
is_none (some a) = false

abbrev pub is_some {ℓ} : {A : Type ℓ} → Option A → Bool
is_some none = false
is_some (some a) = true

-- A live room of this id.
abbrev pub live_room : ℕ → Conversation → Bool
live_room id c = c.id == id && is_none c.deleted_at

abbrev pub bumped : Conversation → Conversation
bumped c = record c { last_seq = c.last_seq + 1 }

-- What `RETURNING last_seq` scans into `seq`: 0 if no row was updated.
abbrev pub returned : Option Conversation → ℕ
returned none = 0
returned (some c) = c.last_seq

-- UPDATE conversations SET last_seq = last_seq + 1 WHERE ... RETURNING last_seq
unfoldable pub allocate_seq : ℕ → Exec ℕ
allocate_seq conversation_id db =
    let rows = update (live_room conversation_id) bumped db.tables.conversations in
    (
      ok (returned (find (live_room conversation_id) rows)),
      record db { tables = record db.tables { conversations = rows } },
    )

abbrev pub same_key : Option String → Option String → Bool
same_key (some a) (some b) = str_eq a b
same_key _ _ = false

-- The unique index idx_msg_client; NULL equals nothing there.
abbrev pub by_client_msg_id : ℕ → ℕ → Option String → Message → Bool
by_client_msg_id conversation_id sender_id key m =
    m.conversation_id == conversation_id
    && (m.sender_id == sender_id && same_key m.client_msg_id key)

-- The unique index idx_msg_seq.
abbrev pub by_seq : ℕ → ℕ → Message → Bool
by_seq conversation_id seq m = m.conversation_id == conversation_id && m.seq == seq

-- The two unique indexes, then the reference to the sender.
abbrev pub refused_insert : Tables → Message → Option Error
refused_insert t m =
    if is_some (find (by_client_msg_id m.conversation_id m.sender_id m.client_msg_id) t.messages)
      || is_some (find (by_seq m.conversation_id m.seq) t.messages)
    then some duplicated_key
    else if is_none (find (λ (u : User). u.id == m.sender_id) t.users)
    then some failed
    else none

-- tx.Create(msg); the id comes from the column's serial, also for a row that is refused.
insert_refused : Message → Option Error → Exec Message
insert_refused m (some e) db =
    (err e, record db { serials = record db.serials { messages = db.serials.messages + 1 } })
insert_refused m none db = (
  ok m,
  record {
    tables = record db.tables { messages = db.tables.messages ++ m ∷ [] };
    serials = record db.serials { messages = db.serials.messages + 1 };
  },
)

unfoldable pub insert_message : Message → Exec Message
unfolding insert_refused
insert_message m db =
    let row = record m { id = db.serials.messages } in
    insert_refused row (refused_insert db.tables row) db

abbrev pub topic_message_created : String
topic_message_created = "message.created"

unfoldable pub insert_outbox : Env → Payload → Exec (Unit {0})
insert_outbox env payload db = (
  ok tt,
  record {
    tables = record db.tables {
      outbox =
          db.tables.outbox
          ++ record {
            id = db.serials.outbox;
            topic = topic_message_created;
            payload = payload;
            trace_context = env.trace;
            created_at = env.now;
            published_at = none;
            attempts = 0;
            last_error = none;
          }
            ∷ [];
    };
    serials = record db.serials { outbox = db.serials.outbox + 1 };
  },
)

abbrev pub event_of : String → Message → MessageCreated
event_of sender_name m = record {
  message_id = m.id;
  conversation_id = m.conversation_id;
  sender_id = m.sender_id;
  sender_name = sender_name;
  seq = m.seq;
  content = m.content;
  client_msg_id = m.client_msg_id;
  created_at = m.created_at;
}

encoded : Option Payload → Exec Payload
encoded none db = (err failed, db)
encoded (some p) db = (ok p, db)

-- What the caller asks to send.
pub record Draft : Type 0 where
  pub conversation_id : ℕ
  pub sender_id : ℕ
  pub sender_name : String
  pub content : String
  pub client_msg_id : Option String

abbrev pub message_of : Env → Draft → ℕ → Message
message_of env d seq = record {
  id = 0;
  conversation_id = d.conversation_id;
  sender_id = d.sender_id;
  client_msg_id = d.client_msg_id;
  seq = seq;
  content = d.content;
  created_at = env.now;
}

-- The body of the transaction.
unfoldable pub write_message : Env → Draft → Exec Message
unfolding encoded
write_message env d = do
  statement env 0
  seq ← allocate_seq d.conversation_id
  check (not (seq == 0)) conversation_not_found
  statement env 1
  msg ← insert_message (message_of env d seq)
  payload ← encoded (encode (event_of d.sender_name msg))
  statement env 2
  insert_outbox env payload
  pure msg

found : Option Message → Exec (Message × Bool)
found none = raise record_not_found
found (some m) = pure (m, false)

-- After the transaction: a duplicate of a key the sender gave is answered with the first message.
unfoldable pub resolve : Env → Draft → Result Message × Db → Result (Message × Bool) × Db
unfolding found
resolve env d (ok m, db) = (ok (m, true), db)
resolve env d (err duplicated_key, db) =
    (if is_some d.client_msg_id
        then (do
          statement env 3
          existing ← gets (λ t.
              find (by_client_msg_id d.conversation_id d.sender_id d.client_msg_id) t.messages)
          found existing)
        else raise duplicated_key)
      db
resolve env d (err e, db) = (err e, db)

unfoldable pub create_message : Env → Draft → Exec (Message × Bool)
create_message env d db = resolve env d (transaction env (write_message env d) db)

abbrev pub in_room : ℕ → Message → Bool
in_room conversation_id m = m.conversation_id == conversation_id

abbrev last_first {ℓ} : {A : Type ℓ} → List A → List A
last_first xs = reverse xs

-- ORDER BY id DESC LIMIT limit; a `before_id` of 0 asks for the newest.
unfoldable pub list_messages : Env → ℕ → ℕ → ℕ → Exec (List Message)
list_messages env conversation_id before_id limit = do
  statement env 0
  gets λ t. take limit (
      last_first (
        order_by (λ (m : Message). m.id)
          (select
            (λ (m : Message). in_room conversation_id m && (before_id == 0 || ltb m.id before_id))
            t.messages)))

-- ORDER BY seq ASC LIMIT limit
unfoldable pub list_messages_after_seq : Env → ℕ → ℕ → ℕ → Exec (List Message)
list_messages_after_seq env conversation_id after_seq limit = do
  statement env 0
  gets λ t. take limit (
      order_by (λ (m : Message). m.seq)
        (select (λ (m : Message). in_room conversation_id m && ltb after_seq m.seq) t.messages))
