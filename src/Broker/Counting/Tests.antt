-- ===== src/Broker/Counting/Tests.antt =====
-- The consumer at two deliveries of one message (internal/broker/consume.go).
use go_chat_backend.Common.{◌≡◌, refl, true, false, List, [], ◌∷◌}
use go_chat_backend.Common.Rows.{select, find}
use go_chat_backend.Event.{MessageCreated}
use go_chat_backend.Database.Samples.{calm, two_members, event}
use go_chat_backend.Database.Unread.{apply_unread, claim, bump_unread, bump_all}
use go_chat_backend.Database.Unread.Once.{count_in}
use go_chat_backend.Outbox.Local.{apply_event}
use go_chat_backend.Outbox.Local.Counted.{Counted, AllEvents}
use go_chat_backend.Broker.Publish.{json_envelope}
use go_chat_backend.Broker.Fanout.{decode_envelope}
use go_chat_backend.Broker.Consume.{Weather, handle_unread}
use go_chat_backend.Broker.Counting.{Delivery, Consumer, handle_delivery, consume_one, consume_all}
use go_chat_backend.Broker.Counting.Once.{IsDelivered, acked_counted, consume_all-Counted}

-- The acknowledgement of the first delivery is lost.
abbrev around : Weather
around = record {
  has_metadata = true;
  parses = true;
  applies = true;
  dead_letters = true;
  ack_arrives = false;
  term_arrives = true;
  survives = true;
}

abbrev first : Delivery
first = record {
  payload = json_envelope (record { event = event 5; user_ids = 1 ∷ 2 ∷ []; from = "node-1" });
  number = 1;
  env = calm 100;
  around = around;
}

abbrev second : Delivery
second = record first { number = 2; env = calm 130; around = record around { ack_arrives = true } }

abbrev start : Consumer
start = record {
  db = two_members;
  broker = record { redelivered = 0; unread_done = 0; dead_lettered = 0; dead = [] };
}

consume_all-Counted_example :
    ((evs : List MessageCreated) × Counted start.db.tables
        (consume_all (first ∷ second ∷ []) start).db.tables
        evs
      × AllEvents (IsDelivered (first ∷ second ∷ [])) evs)
    × (acked_counted (consume_all (first ∷ second ∷ []) start).db.tables (first ∷ second ∷ []) start
        ≡ true)
consume_all-Counted_example = consume_all-Counted (first ∷ second ∷ []) start

-- Bob has one unread message, and the second delivery was acknowledged.
counted_once :
    let c = consume_all (first ∷ second ∷ []) start in
    (count_in 1 2 c.db.tables.unread_counters ≡ 1) × (c.broker.unread_done ≡ 1)
unfolding consume_all consume_one handle_delivery handle_unread decode_envelope apply_event
    apply_unread claim bump_unread bump_all select find
counted_once = (refl, refl)
