-- ===== src/Outbox/Local/Tests.antt =====
-- The theorems on a single node at a table of three rows (internal/outbox/local.go).
use go_chat_backend.Common.{ℕ, ◌≡◌, refl, some, [], ◌∷◌, arith, true}
use go_chat_backend.Common.Rows.{select, find, update, order_by, insert_by}
use go_chat_backend.Event.{decode_message_created}
use go_chat_backend.Database.Samples.{calm, two_members, three_rows, two_waiting}
use go_chat_backend.Database.OutboxTable.{fetch_outbox, mark_outbox_published, mark_outbox_failed}
use go_chat_backend.Database.Unread.Once.{count_in}
use go_chat_backend.Outbox.Relay.{Weather, Relay, drain, drain_rows, attempt, note}
use go_chat_backend.Outbox.Local.{Node, Wiring, local_publish, apply_event, deliver_message}
use go_chat_backend.Outbox.Local.Once.{seen_by, local_rounds, local_rounds-Counted, Done}
use go_chat_backend.Ws.Hub.{new_hub, enqueue}
use go_chat_backend.Database.Rooms.{list_conversation_member_ids}
use go_chat_backend.Database.Unread.{apply_unread, claim, bump_unread, bump_all}
use go_chat_backend.Outbox.Relay.Payloads.{keys}

abbrev fair : Weather
fair = record { fetch = calm 100; members = λ id. calm 101; note = λ id. calm 102; mark = calm 103 }

-- The mark of this round fails, so that its rows go out again.
abbrev unmarked : Weather
unmarked = record fair { mark = record (calm 103) { fails = λ n. true } }

abbrev wiring : Wiring ℕ
wiring = record { env = λ id. calm 101; encode = λ ev. some ev.message_id }

abbrev start : Relay (Node ℕ)
start = record {
  db = three_rows;
  world = record { db = two_members; hub = new_hub };
  published = 0;
  failed = 0;
}

-- As start, over a table whose payloads can all be decoded.
abbrev readable : Relay (Node ℕ)
readable = record start { db = two_waiting }

local_rounds-Counted_example :
    Done
      (keys two_waiting)
      readable
      2
      (local_rounds ((unmarked, wiring) ∷ (fair, wiring) ∷ []) readable)
unfolding decode_message_created
local_rounds-Counted_example =
    local_rounds-Counted ((unmarked, wiring) ∷ (fair, wiring) ∷ []) 3 2 readable
      (omega arith, (omega arith, omega arith)) (refl, (refl, tt))

-- Two rounds over the same row, and bob has one unread message.
twice_test :
    count_in 1 2
      (seen_by (local_rounds ((unmarked, wiring) ∷ (fair, wiring) ∷ []) start)).unread_counters
    ≡ 1
unfolding local_rounds drain drain_rows attempt note fetch_outbox mark_outbox_published
    mark_outbox_failed list_conversation_member_ids select find update order_by insert_by
    decode_message_created local_publish apply_event apply_unread claim bump_unread bump_all
    deliver_message enqueue
twice_test = refl
