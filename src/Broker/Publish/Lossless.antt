-- ===== src/Broker/Publish/Lossless.antt =====
-- From the outbox to the stream, over any rounds of the relay (internal/outbox/relay.go with
-- internal/broker/broker.go).
use go_chat_backend.Common.{ℕ, ◌≡◌, sym, subst, true, false, List, [], ◌∷◌, inl, inr, Bool-cases}
use go_chat_backend.Database.{Outbox}
use go_chat_backend.Database.OutboxTable.{is_in}
use go_chat_backend.Database.OutboxTable.Pending.{queue, InOrder}
use go_chat_backend.Outbox.Relay.{Weather, Relay, drain}
use go_chat_backend.Outbox.Relay.Carried.{AllAdmitted, drain-Round}
use go_chat_backend.Outbox.Relay.Payloads.{payloads, drain-payloads}
use go_chat_backend.Outbox.Relay.Queue.{drain-queue}
use go_chat_backend.Outbox.Relay.Left.{AllDecode, drain-left}
use go_chat_backend.Broker.Publish.{
  msg_id, Stored, has_message, JetStream, Publisher, Wiring, broker_publish,
}
use go_chat_backend.Broker.Publish.Stream.{
  Grows, Grows-refl, Grows-trans, has_message-Grows, streaming,
}

module _ {S : Type 0} (jetstream : JetStream S) where
  abbrev pub stream_of : Relay (Publisher S) → List Stored
  stream_of r = jetstream.stored r.world.js

  -- Some rounds, each with what the database does during it, and when the stream gets the messages; a
  -- round may be that of another node.
  unfoldable pub broker_rounds : List (Weather × Wiring) → Relay (Publisher S) → Relay (Publisher S)
  broker_rounds [] r = r
  broker_rounds ((weather, w) ∷ ws) r =
      broker_rounds ws (drain (broker_publish jetstream w) weather r).relay

  all_admitted : (w : Wiring) (rows : List Outbox) → AllAdmitted (streaming jetstream w) rows
  unfolding streaming
  all_admitted w [] = tt
  all_admitted w (row ∷ rows) = (λ ev e. tt, all_admitted w rows)

  round-Grows :
      (weather : Weather) (w : Wiring) (r : Relay (Publisher S))
      → Grows (stream_of r) (stream_of (drain (broker_publish jetstream w) weather r).relay)
  unfolding streaming
  round-Grows weather w r = (drain-Round (streaming jetstream w) weather r (all_admitted w _)).moves

  rounds-Grows :
      (ws : List (Weather × Wiring)) (r : Relay (Publisher S))
      → Grows (stream_of r) (stream_of (broker_rounds ws r))
  unfolding broker_rounds
  rounds-Grows [] r = Grows-refl (stream_of r)
  rounds-Grows ((weather, w) ∷ ws) r =
      Grows-trans _ _ _ (round-Grows weather w r)
        (rounds-Grows ws (drain (broker_publish jetstream w) weather r).relay)

  round-left :
      (weather : Weather) (w : Wiring) (high id : ℕ) (r : Relay (Publisher S))
      → InOrder r.db.tables high
      → AllDecode (payloads r.db)
      → is_in (queue r.db.tables) id ≡ true
      → is_in (queue (drain (broker_publish jetstream w) weather r).relay.db.tables) id ≡ false
      → has_message (msg_id id) (stream_of (drain (broker_publish jetstream w) weather r).relay)
        ≡ true
  unfolding streaming
  round-left weather w high id r h d i j =
      (drain-left (streaming jetstream w) weather high r id h d (all_admitted w _) i j).1

  lossless_from :
      (ws : List (Weather × Wiring)) (high id : ℕ) (r : Relay (Publisher S))
      → InOrder r.db.tables high
      → AllDecode (payloads r.db)
      → is_in (queue r.db.tables) id ≡ true
      → is_in (queue (broker_rounds ws r).db.tables) id ≡ false
      → has_message (msg_id id) (stream_of (broker_rounds ws r)) ≡ true
  unfolding broker_rounds
  lossless_from [] high id r h d i j = absurd (cc)
  lossless_from ((weather, w) ∷ ws) high id r h d i j =
      let next = (drain (broker_publish jetstream w) weather r).relay in
      elim (Bool-cases (is_in (queue next.db.tables) id)) [
        | inl waits ↦
            lossless_from ws high id next
              (drain-queue (broker_publish jetstream w) weather high r h).1
              (subst AllDecode (sym (drain-payloads (broker_publish jetstream w) weather r)) d)
              waits j
        | inr gone ↦
            has_message-Grows (msg_id id) _ _ (rounds-Grows ws next)
              (round-left weather w high id r h d i gone)
      ]

-- Nothing is lost on the way to the broker. However many rounds the relays make, and whatever fails in
-- them, a row that waited in the outbox waits still, or the stream has taken a message of the row's id,
-- if every payload of the table can be decoded.
pub broker_rounds-has_message :
    {S : Type 0} (jetstream : JetStream S) (ws : List (Weather × Wiring)) (high id : ℕ)
    (r : Relay (Publisher S))
    → InOrder r.db.tables high
    → AllDecode (payloads r.db)
    → is_in (queue r.db.tables) id ≡ true
    → is_in (queue (broker_rounds jetstream ws r).db.tables) id ≡ false
    → has_message (msg_id id) (stream_of jetstream (broker_rounds jetstream ws r)) ≡ true
broker_rounds-has_message jetstream ws high id r h d i j =
    lossless_from jetstream ws high id r h d i j
