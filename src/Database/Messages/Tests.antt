-- ===== src/Database/Messages/Tests.antt =====
-- The theorems on messages at calls that exercise them (internal/database/conversations.go).

use go_chat_backend.Common.{ℕ, ◌≡◌, refl, ◌⊎◌, inl, inr, false, some, arith, ◌==◌, Bool-cases}
use go_chat_backend.Common.Rows.{select, find, update}
use go_chat_backend.Event.{encode}
use go_chat_backend.Database.{Env, lost, ok}
use go_chat_backend.Database.Samples.{calm, two_members}
use go_chat_backend.Database.Messages.{
  Draft, create_message, write_message, allocate_seq, insert_message, insert_outbox, resolve,
}
use go_chat_backend.Database.Messages.Atomic.{
  NothingWritten, BothWritten, stored, stored_message, create_message_atomic,
}
use go_chat_backend.Database.Messages.Gapless.{
  IsGapless, last_seq_at, room_messages, create_message-IsGapless,
}
use go_chat_backend.Database.Messages.Retry.{create_message-retry}

abbrev draft : Draft
draft = record {
  conversation_id = 1;
  sender_id = 1;
  sender_name = "ann";
  content = "hi";
  client_msg_id = some "k1";
}

-- The commit is done and its answer is lost on the way.
abbrev lossy : ℕ → Env
lossy now = record (calm now) { commit = lost }

two_members-IsGapless : IsGapless two_members.tables 2
unfolding last_seq_at room_messages select find
two_members-IsGapless = record {
  rooms = (omega arith, omega arith);
  seqs = λ n. elim (Bool-cases (1 == n)) [ inl here ↦ rw here refl | inr other ↦ rw other refl ];
}

create_message_atomic_example :
    NothingWritten (lossy 10) draft two_members ⊎ BothWritten (lossy 10) draft two_members
create_message_atomic_example = create_message_atomic (lossy 10) draft two_members

create_message-IsGapless_example : IsGapless (create_message (calm 10) draft two_members).1.tables 2
create_message-IsGapless_example =
    create_message-IsGapless (calm 10) draft two_members 2 two_members-IsGapless

first_send : BothWritten (lossy 10) draft two_members
unfolding create_message write_message allocate_seq insert_message insert_outbox resolve find update
    encode
first_send = (refl, inr (refl, refl), (λ e. cc), refl)

create_message-retry_example :
    let again =
      create_message
        (calm 20)
        (record draft { content = "hi!" })
        (create_message (lossy 10) draft two_members).1 in
    (again.0 ≡ ok (stored_message (lossy 10) draft two_members, false))
    × (again.1.tables ≡ stored (lossy 10) draft two_members)
create_message-retry_example =
    create_message-retry (lossy 10) (calm 20) draft two_members "k1" "hi!" "ann" first_send
      (λ n. refl) refl
