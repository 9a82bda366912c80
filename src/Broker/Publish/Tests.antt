-- ===== src/Broker/Publish/Tests.antt =====
-- The theorems on the broker's publisher at two waiting rows (internal/broker/broker.go).
use go_chat_backend.Common.{◌≡◌, refl, List, [], ◌∷◌, arith, true, ◌+◌}
use go_chat_backend.Common.Rows.{select, find, update, order_by, insert_by}
use go_chat_backend.Common.Decimal.{format_from}
use go_chat_backend.Event.{decode_message_created}
use go_chat_backend.Database.Samples.{calm, two_waiting}
use go_chat_backend.Database.Rooms.{list_conversation_member_ids}
use go_chat_backend.Database.OutboxTable.{fetch_outbox, mark_outbox_published, mark_outbox_failed}
use go_chat_backend.Database.OutboxTable.Pending.{InOrder}
use go_chat_backend.Outbox.Relay.{Weather, Relay, drain, drain_rows, attempt, note}
use go_chat_backend.Broker.Publish.{
  Stored, has_message, msg_id, Publisher, Wiring, broker_publish, encode_envelope,
}
use go_chat_backend.Broker.Publish.Lossless.{stream_of, broker_rounds, broker_rounds-has_message}
use go_chat_backend.Broker.Publish.Window.{drain-AllRecent}
use go_chat_backend.Broker.Publish.Samples.{memory}
use go_chat_backend.Broker.Publish.Genuine.{Fed, broker_rounds-Fed}
use go_chat_backend.Outbox.Relay.Payloads.{keys}

abbrev fair : Weather
fair = record { fetch = calm 100; members = λ id. calm 101; note = λ id. calm 102; mark = calm 103 }

-- The relay is stopped before the mark.
abbrev unmarked : Weather
unmarked = record fair { mark = record (calm 103) { fails = λ n. true } }

abbrev wiring : Wiring
wiring = record { node_id = "node-1"; now = λ id. 200 + id }

abbrev start : Relay (Publisher (List Stored))
start = record {
  db = two_waiting;
  world = record { js = []; published = 0; publish_fails = 0 };
  published = 0;
  failed = 0;
}

abbrev two_rounds : List (Weather × Wiring)
two_rounds = (unmarked, wiring) ∷ (fair, wiring) ∷ []

two_waiting-InOrder : InOrder two_waiting.tables 3
two_waiting-InOrder = (omega arith, (omega arith, omega arith))

broker_rounds-has_message_example :
    has_message (msg_id 2) (stream_of memory (broker_rounds memory two_rounds start)) ≡ true
unfolding broker_rounds drain drain_rows attempt note fetch_outbox mark_outbox_published
    mark_outbox_failed list_conversation_member_ids select find update order_by insert_by
    decode_message_created broker_publish encode_envelope format_from memory
broker_rounds-has_message_example =
    broker_rounds-has_message memory two_rounds 3 2 start two_waiting-InOrder (refl, (refl, tt))
      refl refl

broker_rounds-Fed_example :
    Fed (keys two_waiting) [] (stream_of memory (broker_rounds memory two_rounds start))
unfolding memory
broker_rounds-Fed_example = broker_rounds-Fed memory two_rounds 3 start two_waiting-InOrder

-- The relay after a round that it did not mark.
abbrev stopped : Relay (Publisher (List Stored))
stopped = (drain (broker_publish memory wiring) unmarked start).relay

drain-AllRecent_example :
    stream_of memory (drain (broker_publish memory wiring) fair stopped).relay
    ≡ stream_of memory stopped
unfolding drain drain_rows attempt note fetch_outbox mark_outbox_published mark_outbox_failed
    list_conversation_member_ids select find update order_by insert_by decode_message_created
    broker_publish encode_envelope format_from memory
drain-AllRecent_example =
    drain-AllRecent memory wiring fair 3 stopped two_waiting-InOrder refl (refl, (refl, tt))
