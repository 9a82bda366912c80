-- ===== src/Broker/Publish/Genuine.antt =====
-- What the relay puts on the stream (internal/outbox/relay.go with internal/broker/broker.go).
use Prim.Native.String.{String}
use go_chat_backend.Common.{
  ℕ, ◌≡◌, refl, ap, sym, ◌∙◌, Option, none, some, List, [], ◌∷◌, ◌++◌, inl, inr, append-nil,
  append_assoc, subst, arith,
}
use go_chat_backend.Event.{Payload, MessageCreated}
use go_chat_backend.Database.OutboxTable.Pending.{InOrder}
use go_chat_backend.Outbox.Relay.{Weather, Relay, drain}
use go_chat_backend.Outbox.Relay.Carried.{Carrier, drain-Round}
use go_chat_backend.Outbox.Relay.Payloads.{keys, drain-keys}
use go_chat_backend.Outbox.Relay.Queue.{drain-queue}
use go_chat_backend.Outbox.Relay.Rows.{IsRow, fetched_admitted}
use go_chat_backend.Broker.Publish.{
  Bytes, json_envelope, encode_envelope, msg_id, message_subject, Stored, JetStream, Publisher,
  Wiring, outgoing, publish_encoded, broker_publish,
}
use go_chat_backend.Broker.Publish.Stream.{after-js}
use go_chat_backend.Broker.Publish.Lossless.{stream_of, broker_rounds}

-- A message made of a row of the table: under the row's id, on the subject of its event's room, with
-- its event as the payload, for some receivers and from some node.
pub record IsOfRow (table : List (ℕ × Payload)) (m : Stored) : Type 0 where
  pub id : ℕ
  pub event : MessageCreated
  pub user_ids : List ℕ
  pub from : String
  pub row : IsRow table id event
  pub message_id : m.message_id ≡ msg_id id
  pub subject : m.subject ≡ message_subject event.conversation_id
  pub payload :
      m.payload ≡ json_envelope (record { event = event; user_ids = user_ids; from = from })

abbrev pub AllOfRows : List (ℕ × Payload) → List Stored → Type 0
AllOfRows table [] = Unit {0}
AllOfRows table (m ∷ ms) = IsOfRow table m × AllOfRows table ms

AllOfRows-append :
    (table : List (ℕ × Payload)) (a b : List Stored)
    → AllOfRows table a
    → AllOfRows table b
    → AllOfRows table (a ++ b)
AllOfRows-append table [] b s t = t
AllOfRows-append table (m ∷ a) b s t = (s.0, AllOfRows-append table a b s.1 t)

-- A stream has taken only messages made of rows.
pub record Fed (table : List (ℕ × Payload)) (before after : List Stored) : Type 0 where
  pub news : List Stored
  pub taken : after ≡ before ++ news
  pub genuine : AllOfRows table news

Fed-refl : (table : List (ℕ × Payload)) (ms : List Stored) → Fed table ms ms
Fed-refl table ms = record { news = []; taken = sym (append-nil ms); genuine = tt }

Fed-trans :
    (table : List (ℕ × Payload)) (ks ms ns : List Stored)
    → Fed table ks ms
    → Fed table ms ns
    → Fed table ks ns
Fed-trans table ks ms ns g h = record {
  news = g.news ++ h.news;
  taken = h.taken ∙ ap (λ l. l ++ h.news) g.taken ∙ append_assoc ks g.news h.news;
  genuine = AllOfRows-append table g.news h.news g.genuine h.genuine;
}

module _ {S : Type 0} (jetstream : JetStream S) (table : List (ℕ × Payload)) (w : Wiring) where
  publish_msg-Fed :
      (m : Stored) (s : S)
      → IsOfRow table m
      → Fed table (jetstream.stored s) (jetstream.stored (jetstream.publish_msg m s).1)
  publish_msg-Fed m s h = elim (jetstream.stored-publish_msg m s) [
    | inl same ↦ subst (Fed table (jetstream.stored s)) (sym same) (Fed-refl table _)
    | inr more ↦
        subst (Fed table (jetstream.stored s)) (sym more)
          (record { news = m ∷ []; taken = refl; genuine = (h, tt) })
  ]

  encoded-Fed :
      (id : ℕ) (ev : MessageCreated) (ids : List ℕ) (b : Publisher S) (payload : Option Bytes)
      → IsRow table id ev
      → ((bytes : Bytes)
          → payload ≡ some bytes
          → bytes ≡ json_envelope (record { event = ev; user_ids = ids; from = w.node_id }))
      → Fed table
          (jetstream.stored b.js)
          (jetstream.stored (publish_encoded jetstream w id ev b payload).1.js)
  encoded-Fed id ev ids b none row made = Fed-refl table (jetstream.stored b.js)
  encoded-Fed id ev ids b (some bytes) row made =
      let m = outgoing jetstream w id ev bytes in
      subst (λ s. Fed table (jetstream.stored b.js) (jetstream.stored s))
        (sym (after-js jetstream w b (jetstream.publish_msg m b.js)))
        (publish_msg-Fed m b.js (record {
          id = id;
          event = ev;
          user_ids = ids;
          from = w.node_id;
          row = row;
          message_id = refl;
          subject = refl;
          payload = made bytes refl;
        }))

  encoded-made :
      (ev : MessageCreated) (ids : List ℕ) (bytes : Bytes)
      → encode_envelope (record { event = ev; user_ids = ids; from = w.node_id }) ≡ some bytes
      → bytes ≡ json_envelope (record { event = ev; user_ids = ids; from = w.node_id })
  unfolding encode_envelope
  encoded-made ev ids bytes h = ground (arith, h)

  feeding : Carrier (broker_publish jetstream w)
  unfolding broker_publish
  feeding = record {
    Moves = λ b b'. Fed table (jetstream.stored b.js) (jetstream.stored b'.js);
    Has = λ b id ev. Unit {0};
    Admits = IsRow table;
    stays = λ b. Fed-refl table (jetstream.stored b.js);
    joins = λ b b' b'' g h. Fed-trans table _ _ _ g h;
    keeps = λ b b' id ev g h. tt;
    moved = λ id ev ids b a.
        encoded-Fed id ev ids b
          (encode_envelope (record { event = ev; user_ids = ids; from = w.node_id })) a
          (encoded-made ev ids);
    finished = λ id ev ids b a h. tt;
  }

  round-Fed :
      (weather : Weather) (high : ℕ) (r : Relay (Publisher S))
      → InOrder r.db.tables high
      → keys r.db ≡ table
      → Fed table
          (stream_of jetstream r)
          (stream_of jetstream (drain (broker_publish jetstream w) weather r).relay)
  unfolding feeding
  round-Fed weather high r h same =
      (drain-Round feeding weather r
        (fetched_admitted feeding table (λ id ev k. k) weather high r h same)).moves

rounds-Fed :
    {S : Type 0} (jetstream : JetStream S) (table : List (ℕ × Payload))
    (ws : List (Weather × Wiring)) (high : ℕ) (r : Relay (Publisher S))
    → InOrder r.db.tables high
    → keys r.db ≡ table
    → Fed table (stream_of jetstream r) (stream_of jetstream (broker_rounds jetstream ws r))
unfolding broker_rounds
rounds-Fed jetstream table [] high r h same = Fed-refl table _
rounds-Fed jetstream table ((weather, w) ∷ ws) high r h same =
    let next = (drain (broker_publish jetstream w) weather r).relay in
    Fed-trans table _ _ _ (round-Fed jetstream table w weather high r h same) (
      rounds-Fed jetstream table ws high next
        (drain-queue (broker_publish jetstream w) weather high r h).1
        (drain-keys (broker_publish jetstream w) weather r ∙ same))

-- Nothing is made up on the way to the broker. However many rounds the relays make over a table in
-- order, and whatever fails in them, each message that the stream takes is made of a row of the table:
-- it is published under the id of that row, on the subject of the room of the row's event, and carries
-- that event.
pub broker_rounds-Fed :
    {S : Type 0} (jetstream : JetStream S) (ws : List (Weather × Wiring)) (high : ℕ)
    (r : Relay (Publisher S))
    → InOrder r.db.tables high
    → Fed (keys r.db) (stream_of jetstream r) (stream_of jetstream (broker_rounds jetstream ws r))
broker_rounds-Fed jetstream ws high r h = rounds-Fed jetstream (keys r.db) ws high r h refl
