-- ===== src/Server/Conversations/Tests.antt =====
-- The theorems on the routes of a room at requests that exercise them
-- (internal/server/conversations.go).
use go_chat_backend.Common.{
  ℕ, ◌≡◌, ◌⊎◌, ◌<◌, ◌*◌, refl, none, some, [], ◌∷◌, arith, drop, length, inl, inr, ◌==◌, Bool-cases,
}
use go_chat_backend.Common.Rows.{select, find}
use go_chat_backend.Database.{Message, Db}
use go_chat_backend.Database.Samples.{calm, two_members, room}
use go_chat_backend.Database.Messages.Gapless.{IsGapless, room_messages, last_seq_at}
use go_chat_backend.Database.Rooms.{membership}
use go_chat_backend.Server.Conversations.{number, Weather, SendRequest, send_message_handler}
use go_chat_backend.Server.Conversations.CatchUp.{catch_up, catch_up_lem}
use go_chat_backend.Server.Conversations.Sending.{
  NothingSent, MessageSent, send_message_handler-outcome,
}

abbrev message : ℕ → Message
message n = record {
  id = n;
  conversation_id = 1;
  sender_id = 1;
  client_msg_id = none;
  seq = n;
  content = "hi";
  created_at = 10;
}

-- Three messages in the room.
abbrev busy : Db
busy = record two_members {
  tables = record two_members.tables {
    conversations = record room { last_seq = 3 } ∷ [];
    messages = message 1 ∷ message 2 ∷ message 3 ∷ [];
  };
}

busy-IsGapless : IsGapless busy.tables 2
unfolding room_messages last_seq_at select find
busy-IsGapless = record {
  rooms = (omega arith, omega arith);
  seqs = λ n. elim (Bool-cases (1 == n)) [ inl here ↦ rw here refl | inr other ↦ rw other refl ];
}

short_gap : length (drop 1 (room_messages 1 busy.tables)) < 2 * 2
unfolding room_messages select
short_gap = omega arith

-- Two pages of two, the second empty.
catch_up_lem_example : catch_up (calm 20) 1 2 2 1 busy ≡ some (drop 1 (room_messages 1 busy.tables))
catch_up_lem_example =
    catch_up_lem (calm 20) 1 2 2 2 1 busy refl busy-IsGapless (omega arith) short_gap

abbrev fair : Weather
fair = record { member = calm 30; user = calm 31; work = calm 32 }

abbrev hello : SendRequest
hello = record { content = "hello"; client_msg_id = "" }

send_message_handler-outcome_example :
    NothingSent busy (send_message_handler fair (number 1) (some hello) 1 "ann" busy)
    ⊎ MessageSent fair
        (number 1)
        1
        "ann"
        (some hello)
        busy
        (send_message_handler fair (number 1) (some hello) 1 "ann" busy)
send_message_handler-outcome_example =
    send_message_handler-outcome fair (number 1) (some hello) 1 "ann" busy

stranger : membership 1 7 busy.tables ≡ 0
unfolding find select
stranger = refl
