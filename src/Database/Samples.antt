-- ===== src/Database/Samples.antt =====
-- Small databases for the tests of the modules (internal/database).
use go_chat_backend.Common.{ℕ, false, none, some, [], ◌∷◌}
use go_chat_backend.Event.{MessageCreated, json, other_text}
use go_chat_backend.Database.{User, Conversation, ConversationMember, Outbox, Db, Env, done, empty}

-- Every statement is answered and the commit is done.
abbrev pub calm : ℕ → Env
calm now = record { now = now; fails = λ n. false; commit = done; trace = none }

abbrev pub ann : User
ann = record { id = 1; username = "ann"; password_hash = "x" }

abbrev pub bob : User
bob = record { id = 2; username = "bob"; password_hash = "y" }

abbrev pub room : Conversation
room = record { id = 1; title = "room"; created_by_id = 1; last_seq = 0; deleted_at = none }

abbrev member : ℕ → ℕ → ConversationMember
member id user_id = record { id = id; conversation_id = 1; user_id = user_id; created_at = 5 }

-- A room of two members, with no message.
abbrev pub two_members : Db
two_members = record {
  tables = record empty.tables {
    users = ann ∷ bob ∷ [];
    conversations = room ∷ [];
    conversation_members = member 1 1 ∷ member 2 2 ∷ [];
  };
  serials = record empty.serials { users = 3; conversations = 2; conversation_members = 3 };
}

abbrev pub event : ℕ → MessageCreated
event n = record {
  message_id = n;
  conversation_id = 1;
  sender_id = 1;
  sender_name = "ann";
  seq = n;
  content = "hi";
  client_msg_id = none;
  created_at = 10;
}

abbrev pub waiting : ℕ → Outbox
waiting n = record {
  id = n;
  topic = "message.created";
  payload = json (event n);
  trace_context = none;
  created_at = 10;
  published_at = none;
  attempts = 0;
  last_error = none;
}

-- Two rows that wait.
abbrev pub two_waiting : Db
two_waiting = record two_members {
  tables = record two_members.tables { outbox = waiting 1 ∷ waiting 2 ∷ [] };
}

-- One row is out, two wait, and the payload of the last cannot be decoded.
abbrev pub three_rows : Db
three_rows = record two_members {
  tables = record two_members.tables {
    outbox =
        record (waiting 1) { published_at = some 20 }
        ∷ waiting 2
        ∷ record (waiting 3) { payload = other_text "{" }
        ∷ [];
  };
}
