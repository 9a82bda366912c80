-- ===== src/Database/Rooms.antt =====
-- Rooms and their members (internal/database/conversations.go).
pub mod Create
pub mod Access
mod Tests
use Prim.Native.String.{String}
use mathlib.Core.List.{reverse}
use go_chat_backend.Common.{
  ℕ, Bool, true, false, not, ◌&&◌, Option, none, some, List, [], ◌∷◌, ◌++◌, if◌then◌else◌, ◌==◌,
  length, ◌+◌, map,
}
use go_chat_backend.Common.Rows.{select, find, order_by}
use go_chat_backend.Database.{
  User, Conversation, ConversationMember, Tables, Db, Env, Error, Result, ok, err, Exec, pure,
  raise, check, statement, gets, transaction, ◌>>=◌, ◌>>◌, continue, failed, user_not_found,
  conversation_not_found, already_member, duplicated_key, record_not_found,
}
use go_chat_backend.Database.Messages.{is_some, is_none, live_room}
use go_chat_backend.Database.OutboxTable.{is_in}

-- The loop over member_ids: the ids that were not seen before, in order.
unfoldable pub unseen : List ℕ → List ℕ → List ℕ
unseen seen [] = []
unseen seen (id ∷ ids) = elim (is_in seen id) [
  | true ↦ unseen seen ids
  | false ↦ id ∷ unseen (id ∷ seen) ids
]

unfoldable pub all_members : ℕ → List ℕ → List ℕ
all_members creator_id member_ids = creator_id ∷ unseen (creator_id ∷ []) member_ids

unfoldable pub insert_conversation : String → ℕ → Exec Conversation
insert_conversation title creator_id db =
    let conv : Conversation = record {
      id = db.serials.conversations;
      title = title;
      created_by_id = creator_id;
      last_seq = 0;
      deleted_at = none;
    } in
    (
      ok conv,
      record {
        tables = record db.tables { conversations = db.tables.conversations ++ conv ∷ [] };
        serials = record db.serials { conversations = db.serials.conversations + 1 };
      },
    )

-- One row for each user, with the ids of the column's serial from `id` on.
unfoldable pub member_rows : ℕ → ℕ → ℕ → List ℕ → List ConversationMember
member_rows now id conversation_id [] = []
member_rows now id conversation_id (user_id ∷ users) =
    record { id = id; conversation_id = conversation_id; user_id = user_id; created_at = now }
    ∷ member_rows now (id + 1) conversation_id users

unfoldable pub insert_members : Env → ℕ → List ℕ → Exec (Unit {0})
insert_members env conversation_id users db = (
  ok tt,
  record {
    tables = record db.tables {
      conversation_members =
          db.tables.conversation_members
          ++ member_rows env.now db.serials.conversation_members conversation_id users;
    };
    serials = record db.serials {
      conversation_members = db.serials.conversation_members + length users;
    };
  },
)

abbrev pub count_users : List ℕ → Tables → ℕ
count_users ids t = length (select (λ (u : User). is_in ids u.id) t.users)

unfoldable pub write_conversation : Env → String → ℕ → List ℕ → Exec Conversation
write_conversation env title creator_id ids = do
  statement env 0
  found ← gets (count_users ids)
  check (found == length ids) user_not_found
  statement env 1
  conv ← insert_conversation title creator_id
  statement env 2
  insert_members env conv.id ids
  pure conv

unfoldable pub create_conversation : Env → String → ℕ → List ℕ → Exec Conversation
create_conversation env title creator_id member_ids = do
  conv ←
      transaction env (write_conversation env title creator_id (all_members creator_id member_ids))
  statement env 3
  pure conv

abbrev pub is_member : ℕ → ℕ → ConversationMember → Bool
is_member conversation_id user_id m = m.conversation_id == conversation_id && m.user_id == user_id

-- The join with the rooms that are not deleted.
abbrev pub membership : ℕ → ℕ → Tables → ℕ
membership conversation_id user_id t =
    if is_some (find (live_room conversation_id) t.conversations)
    then length (select (is_member conversation_id user_id) t.conversation_members)
    else 0

unfoldable pub ensure_member : Env → ℕ → ℕ → Exec (Unit {0})
ensure_member env conversation_id user_id = do
  statement env 0
  count ← gets (membership conversation_id user_id)
  check (not (count == 0)) conversation_not_found

-- The unique index idx_conv_member, then the references to the room and the user.
abbrev pub refused_member : Tables → ℕ → ℕ → Option Error
refused_member t conversation_id user_id =
    if is_some (find (is_member conversation_id user_id) t.conversation_members)
    then some duplicated_key
    else if is_none (find (λ (c : Conversation). c.id == conversation_id) t.conversations)
    then some failed
    else if is_none (find (λ (u : User). u.id == user_id) t.users)
    then some failed
    else none

insert_member_unless : Env → ℕ → ℕ → Option Error → Exec (Unit {0})
insert_member_unless env conversation_id user_id (some e) db = (
  err e,
  record db {
    serials = record db.serials { conversation_members = db.serials.conversation_members + 1 };
  },
)
insert_member_unless env conversation_id user_id none db =
    insert_members env conversation_id (user_id ∷ []) db

-- gorm.ErrDuplicatedKey becomes ErrAlreadyMember.
abbrev pub as_already_member : {A : Type 0} → Result A × Db → Result A × Db
as_already_member (err duplicated_key, db) = (err already_member, db)
as_already_member r = r

unfoldable pub add_member : Env → ℕ → ℕ → Exec (Unit {0})
unfolding insert_member_unless
add_member env conversation_id user_id = do
  λ db. as_already_member (
      transaction env
        (do
          statement env 0
          λ db.
              insert_member_unless env conversation_id user_id
                (refused_member db.tables conversation_id user_id) db)
        db)
  statement env 1

unfoldable pub list_conversation_member_ids : Env → ℕ → Exec (List ℕ)
list_conversation_member_ids env conversation_id = do
  statement env 0
  gets λ t.
      map (λ (m : ConversationMember). m.user_id)
        (select (λ (m : ConversationMember). m.conversation_id == conversation_id)
          t.conversation_members)

-- The rooms that are joined with a row of the user and are not deleted; ORDER BY id DESC.
unfoldable pub list_conversations_for_user : Env → ℕ → Exec (List Conversation)
list_conversations_for_user env user_id = do
  statement env 0
  gets λ t. reverse (
      order_by (λ (c : Conversation). c.id)
        (select
          (λ (c : Conversation).
            is_none c.deleted_at && is_some (find (is_member c.id user_id) t.conversation_members))
          t.conversations))
