-- ===== src/Database/Unread.antt =====
-- The unread counters and the inbox that guards them (internal/database/unread.go).
pub mod Once
pub mod Redelivery
pub mod Order
mod Tests
use Prim.Native.String.{String}
use text.Mathlib.Text.{◌==◌ as str_eq}
use go_chat_backend.Common.{
  ℕ, Bool, true, false, not, ◌&&◌, Option, none, some, List, [], ◌∷◌, ◌++◌, ltb, max, if◌then◌else◌,
  ◌==◌, length, ◌+◌, map,
}
use go_chat_backend.Common.Rows.{select, find, update}
use go_chat_backend.Database.{
  ConsumedMessage, UnreadCounter, ConversationMember, Tables, Db, Env, Error, Result, ok, err, Exec,
  pure, statement, gets, transaction, ◌>>=◌, ◌>>◌, continue, failed,
}
use go_chat_backend.Database.Messages.{is_some}

abbrev pub unread_consumer : String
unread_consumer = "unread"

abbrev pub is_claim : ℕ → ConsumedMessage → Bool
is_claim message_id c = str_eq c.consumer unread_consumer && c.message_id == message_id

abbrev pub has_claim : ℕ → Tables → Bool
has_claim message_id t = is_some (find (is_claim message_id) t.consumed_messages)

-- INSERT INTO consumed_messages ... ON CONFLICT DO NOTHING: whether a row was inserted.
unfoldable pub claim : Env → ℕ → Exec Bool
claim env message_id db = if has_claim message_id db.tables then (ok false, db) else (
  ok true,
  record db {
    tables = record db.tables {
      consumed_messages =
          db.tables.consumed_messages
          ++ record { consumer = unread_consumer; message_id = message_id; consumed_at = env.now }
            ∷ [];
    };
  },
)

abbrev pub is_counter : ℕ → ℕ → UnreadCounter → Bool
is_counter conversation_id user_id u = u.conversation_id == conversation_id && u.user_id == user_id

-- INSERT ... ON CONFLICT (conversation_id, user_id) DO UPDATE
abbrev pub upsert :
    UnreadCounter → (UnreadCounter → UnreadCounter) → List UnreadCounter → List UnreadCounter
upsert row change rows =
    if is_some (find (is_counter row.conversation_id row.user_id) rows)
    then update (is_counter row.conversation_id row.user_id) change rows
    else rows ++ row ∷ []

abbrev pub first_unread : ℕ → ℕ → ℕ → ℕ → UnreadCounter
first_unread now seq conversation_id user_id = record {
  conversation_id = conversation_id;
  user_id = user_id;
  unread_count = 1;
  last_seq = seq;
  updated_at = now;
}

abbrev pub one_more_unread : ℕ → ℕ → UnreadCounter → UnreadCounter
one_more_unread now seq u = record u {
  unread_count = u.unread_count + 1;
  last_seq = max u.last_seq seq;
  updated_at = now;
}

-- The rows of the SELECT, one after the other.
unfoldable pub bump_all : ℕ → ℕ → ℕ → List ℕ → List UnreadCounter → List UnreadCounter
bump_all now seq conversation_id [] rows = rows
bump_all now seq conversation_id (user_id ∷ users) rows =
    bump_all now seq conversation_id users
      (upsert (first_unread now seq conversation_id user_id) (one_more_unread now seq) rows)

-- conversation_id = ? AND user_id <> ?
abbrev pub receivers : ℕ → ℕ → Tables → List ℕ
receivers conversation_id sender_id t =
    map (λ (m : ConversationMember). m.user_id)
      (select
        (λ (m : ConversationMember).
          m.conversation_id == conversation_id && not (m.user_id == sender_id))
        t.conversation_members)

unfoldable pub bump_unread : Env → ℕ → ℕ → ℕ → Exec ℕ
bump_unread env conversation_id sender_id seq db =
    let users = receivers conversation_id sender_id db.tables in
    (
      ok (length users),
      record db {
        tables = record db.tables {
          unread_counters = bump_all env.now seq conversation_id users db.tables.unread_counters;
        };
      },
    )

-- The guard, then the counters, unless the message was claimed before.
abbrev pub after_claim : Env → ℕ → ℕ → ℕ → Bool → Exec ℕ
after_claim env conversation_id sender_id seq false = pure 0
after_claim env conversation_id sender_id seq true =
    statement env 1 >> bump_unread env conversation_id sender_id seq

unfoldable pub apply_unread : Env → ℕ → ℕ → ℕ → ℕ → Exec ℕ
apply_unread env message_id conversation_id sender_id seq = transaction env (do
  statement env 0
  claimed ← claim env message_id
  after_claim env conversation_id sender_id seq claimed)

unfoldable pub delete_consumed_before : Env → ℕ → Exec ℕ
delete_consumed_before env t = transaction env (do
  statement env 0
  gone ←
      gets
        (λ db. length (select (λ (c : ConsumedMessage). ltb c.consumed_at t) db.consumed_messages))
  λ db. (
    ok gone,
    record db {
      tables = record db.tables {
        consumed_messages =
            select (λ (c : ConsumedMessage). not (ltb c.consumed_at t)) db.tables.consumed_messages;
      };
    },
  ))

-- The map of the answer: a room with nothing unread is not in it.
unfoldable pub unread_for_user : Env → ℕ → Exec (List (ℕ × ℕ))
unread_for_user env user_id = do
  statement env 0
  gets λ t.
      map (λ (u : UnreadCounter). (u.conversation_id, u.unread_count))
        (select (λ (u : UnreadCounter). u.user_id == user_id && ltb 0 u.unread_count)
          t.unread_counters)

unfoldable pub mark_conversation_read : Env → ℕ → ℕ → Exec (Unit {0})
mark_conversation_read env conversation_id user_id = transaction env (
    statement env 0 >> λ db. (
      ok tt,
      record db {
        tables = record db.tables {
          unread_counters =
              upsert
                (record {
                  conversation_id = conversation_id;
                  user_id = user_id;
                  unread_count = 0;
                  last_seq = 0;
                  updated_at = env.now;
                })
                (λ u. record u { unread_count = 0; updated_at = env.now })
                db.tables.unread_counters;
        };
      },
    ))
