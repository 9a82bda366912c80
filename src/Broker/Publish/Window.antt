-- ===== src/Broker/Publish/Window.antt =====
-- A relay that published and was stopped before it marked its rows: the next round publishes them
-- again (internal/outbox/relay.go with internal/broker/broker.go).
use go_chat_backend.Common.{
  ℕ, ◌≡◌, refl, ap, sym, subst, ◌∙◌, true, false, Option, none, some, List, [], ◌∷◌, take,
}
use go_chat_backend.Common.Rows.{select}
use go_chat_backend.Event.{MessageCreated}
use go_chat_backend.Database.{Outbox}
use go_chat_backend.Database.OutboxTable.{is_pending, fetch_outbox}
use go_chat_backend.Database.OutboxTable.Pending.{InOrder}
use go_chat_backend.Outbox.Relay.{Weather, Relay, batch_size, drain}
use go_chat_backend.Outbox.Relay.Carried.{Carrier, AllAdmitted, rows_of, drain-Round, fetched_rows}
use go_chat_backend.Broker.Publish.{
  Bytes, encode_envelope, msg_id, Stored, is_recent, JetStream, Publisher, Wiring, outgoing,
  publish_encoded, broker_publish,
}
use go_chat_backend.Broker.Publish.Stream.{after-js}
use go_chat_backend.Broker.Publish.Lossless.{stream_of}

module _ {S : Type 0} (jetstream : JetStream S) (w : Wiring) where
  -- The stream took a message of each row less than a window before the row goes out now.
  abbrev pub AllRecent : List Stored → List Outbox → Type 0
  AllRecent ms [] = Unit {0}
  AllRecent ms (row ∷ rows) =
      (is_recent (w.now row.id) (msg_id row.id) ms ≡ true) × AllRecent ms rows

  encoded-same :
      (id : ℕ) (ev : MessageCreated) (b : Publisher S) (payload : Option Bytes)
      → is_recent (w.now id) (msg_id id) (jetstream.stored b.js) ≡ true
      → jetstream.stored (publish_encoded jetstream w id ev b payload).1.js ≡ jetstream.stored b.js
  encoded-same id ev b none h = refl
  encoded-same id ev b (some payload) h =
      let m = outgoing jetstream w id ev payload in
      ap jetstream.stored (after-js jetstream w b (jetstream.publish_msg m b.js))
      ∙ jetstream.recent-publish_msg m b.js h

  -- The publisher, as long as the stream is `ms` and the rows are recent in it.
  repeating : List Stored → Carrier (broker_publish jetstream w)
  unfolding broker_publish
  repeating ms = record {
    Moves = λ b b'. jetstream.stored b.js ≡ ms → jetstream.stored b'.js ≡ ms;
    Has = λ b id ev. Unit {0};
    Admits = λ id ev. is_recent (w.now id) (msg_id id) ms ≡ true;
    stays = λ b h. h;
    joins = λ b b' b'' f g h. g (f h);
    keeps = λ b b' id ev f h. tt;
    moved = λ id ev ids b recent h.
        encoded-same id ev b
          (encode_envelope (record { event = ev; user_ids = ids; from = w.node_id }))
          (ap (is_recent (w.now id) (msg_id id)) h ∙ recent)
        ∙ h;
    finished = λ id ev ids b recent h. tt;
  }

  repeated :
      (ms : List Stored) (rows : List Outbox) → AllRecent ms rows → AllAdmitted (repeating ms) rows
  unfolding repeating
  repeated ms [] h = tt
  repeated ms (row ∷ rows) (h, hs) = (λ ev e. h, repeated ms rows hs)

  unmoved :
      (weather : Weather) (r : Relay (Publisher S))
      → AllAdmitted (repeating (stream_of jetstream r)) (
          rows_of
            (repeating (stream_of jetstream r))
            weather
            (fetch_outbox weather.fetch batch_size r.db).0)
      → stream_of jetstream (drain (broker_publish jetstream w) weather r).relay
        ≡ stream_of jetstream r
  unfolding repeating
  unmoved weather r a = (drain-Round (repeating (stream_of jetstream r)) weather r a).moves refl

-- When the relay is stopped between the publishing of rows and their mark, and a relay publishes them
-- again within the duplicate window, the stream stays as it is: whatever else happens in the round,
-- the copies are dropped.
pub drain-AllRecent :
    {S : Type 0} (jetstream : JetStream S) (w : Wiring) (weather : Weather) (high : ℕ)
    (r : Relay (Publisher S))
    → InOrder r.db.tables high
    → weather.fetch.fails 0 ≡ false
    → AllRecent jetstream w
        (stream_of jetstream r)
        (take batch_size (select is_pending r.db.tables.outbox))
    → stream_of jetstream (drain (broker_publish jetstream w) weather r).relay
      ≡ stream_of jetstream r
drain-AllRecent jetstream w weather high r h fetched recent =
    let ms = stream_of jetstream r in
    unmoved jetstream w weather r (
      subst (AllAdmitted (repeating jetstream w ms))
        (sym (fetched_rows (repeating jetstream w ms) weather high r h fetched))
        (repeated jetstream w ms _ recent))
