-- ===== src/Outbox/Relay/Tests.antt =====
-- The relay's theorems at a table of three rows (internal/outbox/relay.go).

use go_chat_backend.Common.{
  ℕ, ◌≡◌, ◌≤◌, ◌++◌, ◌+◌, ◌*◌, refl, false, none, some, List, [], ◌∷◌, arith, take, length,
}
use go_chat_backend.Common.Rows.{select, update, order_by, insert_by}
use go_chat_backend.Event.{decode_message_created}
use go_chat_backend.Database.Samples.{calm, three_rows, waiting, event}
use go_chat_backend.Database.Rooms.{list_conversation_member_ids}
use go_chat_backend.Database.OutboxTable.{
  is_pending, fetch_outbox, mark_outbox_published, mark_outbox_failed,
}
use go_chat_backend.Database.OutboxTable.Pending.{queue, InOrder}
use go_chat_backend.Outbox.Relay.{
  Weather, Relay, Publish, batch_size, drain, drain_rows, attempt, note,
}
use go_chat_backend.Event.{other_text}
use go_chat_backend.Outbox.Relay.{next_round, sleep, leader_retry}
use go_chat_backend.Outbox.Relay.Pacing.{outage-sleeps}
use go_chat_backend.Outbox.Relay.Queue.{Took, drain-queue}
use go_chat_backend.Outbox.Relay.Acked.{logged, readable_ids, drain-log}
use go_chat_backend.Outbox.Relay.Progress.{IsOpen, IsCalm, rounds, rounds-queue}

-- A publisher that takes everything and counts.
abbrev counting : Publish ℕ
counting id ev ids w = (none, w + 1)

abbrev fair : Weather
fair = record { fetch = calm 100; members = λ id. calm 101; note = λ id. calm 102; mark = calm 103 }

abbrev start : Relay ℕ
start = record { db = three_rows; world = 0; published = 0; failed = 0 }

abbrev start_log : Relay (ℕ × List ℕ)
start_log = record { db = three_rows; world = (0, []); published = 0; failed = 0 }

three_rows-InOrder : InOrder three_rows.tables 4
three_rows-InOrder = (omega arith, (omega arith, (omega arith, omega arith)))

-- Both rows that wait go out or are skipped, and the queue is empty.
drain_test : queue (drain counting fair start).relay.db.tables ≡ []
unfolding drain drain_rows attempt note fetch_outbox mark_outbox_published mark_outbox_failed
    list_conversation_member_ids select update order_by insert_by decode_message_created
drain_test = refl

drain-queue_example : Took counting fair 4 start (drain counting fair start)
drain-queue_example = drain-queue counting fair 4 start three_rows-InOrder

no_error : (drain counting fair start).is_error ≡ false
unfolding drain drain_rows attempt note fetch_outbox mark_outbox_published mark_outbox_failed
    list_conversation_member_ids select update order_by insert_by decode_message_created
no_error = refl

drain-log_example :
    (drain (logged counting) fair start_log).relay.world.1
    ≡ start_log.world.1
      ++ readable_ids (
          take
            (drain (logged counting) fair start_log).batch.published
            (take batch_size (select is_pending start_log.db.tables.outbox)))
drain-log_example = drain-log counting fair 4 start_log three_rows-InOrder refl

counting-IsOpen : IsOpen counting
counting-IsOpen id ev ids w = refl

fair-IsCalm : IsCalm fair
fair-IsCalm = record { fetched = refl; members = λ id. refl; marked = refl }

short_queue : length (queue start.db.tables) ≤ 1 * batch_size
unfolding select
short_queue = omega arith

rounds-queue_example : queue (rounds counting fair 1 start).db.tables ≡ []
rounds-queue_example =
    rounds-queue counting fair 1 4 start counting-IsOpen fair-IsCalm three_rows-InOrder short_queue

readable : decode_message_created (waiting 2).payload ≡ some (event 2)
unfolding decode_message_created
readable = refl

-- A publisher that is down.
abbrev down : Publish ℕ
down id ev ids w = (some "no servers", w)

outage-sleeps_example :
    (queue (drain down fair start).relay.db.tables ≡ queue start.db.tables)
    × (next_round 100_000_000 (drain down fair start).batch (drain down fair start).is_error
        ≡ sleep leader_retry)
outage-sleeps_example =
    outage-sleeps down fair 100_000_000 4 (waiting 2)
      (record (waiting 3) { payload = other_text "{" } ∷ []) (event 2) start
      (λ id ev ids w. ("no servers", refl)) three_rows-InOrder two_waiting readable
  where
    two_waiting :
        select is_pending start.db.tables.outbox
        ≡ waiting 2 ∷ record (waiting 3) { payload = other_text "{" } ∷ []
    two_waiting = unfold select in refl
