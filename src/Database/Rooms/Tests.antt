-- ===== src/Database/Rooms/Tests.antt =====
-- The theorems on rooms at calls that exercise them (internal/database/conversations.go).
use go_chat_backend.Common.{◌≡◌, refl, [], ◌∷◌}
use go_chat_backend.Common.Rows.{select, find}
use go_chat_backend.Database.{Db, ok, empty}
use go_chat_backend.Database.Samples.{calm, two_members, ann, bob, room}
use go_chat_backend.Database.Rooms.{
  unseen, all_members, insert_conversation, insert_members, member_rows, write_conversation,
  create_conversation, add_member,
}
use go_chat_backend.Database.Rooms.Create.{IsUnused}

-- Two users and no room.
abbrev two_users : Db
two_users = record {
  tables = record empty.tables { users = ann ∷ bob ∷ [] };
  serials = record empty.serials { users = 3 };
}

two_users-IsUnused : IsUnused two_users.serials.conversations two_users.tables
unfolding find select
two_users-IsUnused = record { room = refl; members = λ u. refl }

made : (create_conversation (calm 5) "room" 1 (2 ∷ 1 ∷ 2 ∷ []) two_users).0 ≡ ok room
unfolding create_conversation write_conversation insert_conversation insert_members member_rows
    all_members unseen select
made = refl

-- A room in which only ann is.
abbrev ann_alone : Db
ann_alone = record two_members {
  tables = record two_members.tables {
    conversation_members = record { id = 1; conversation_id = 1; user_id = 1; created_at = 5 } ∷ [];
  };
}

added : (add_member (calm 9) 1 2 ann_alone).0 ≡ ok tt
unfolding add_member insert_members member_rows find
added = refl
