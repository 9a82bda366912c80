-- ===== src/Broker/Counting.antt =====
-- The shared consumer at its work: handleUnread of internal/broker/consume.go with the applyUnread of
-- internal/server/ws.go that it is given.
pub mod Once
mod Tests
use go_chat_backend.Common.{
  ℕ, Bool, true, false, ◌&&◌, Option, none, some, List, [], ◌∷◌, if◌then◌else◌,
}
use go_chat_backend.Event.{MessageCreated}
use go_chat_backend.Database.{Db, Env, Result, ok, err}
use go_chat_backend.Outbox.Local.{apply_event}
use go_chat_backend.Broker.Publish.{Envelope, Bytes}
use go_chat_backend.Broker.Fanout.{decode_envelope}
use go_chat_backend.Broker.Consume.{Weather, Verdict, no_answer, Broker, handle_unread}

-- One delivery of a message: its bytes, which delivery of it this is, how the database behaves, and
-- what happens around it. Whether the bytes parse and the work succeeds is not read off the weather.
pub record Delivery : Type 0 where
  pub payload : Bytes
  pub number : ℕ
  pub env : Env
  pub around : Weather

pub record Consumer : Type 0 where
  pub db : Db
  pub broker : Broker

abbrev pub is_ok : Result ℕ → Bool
is_ok (ok n) = true
is_ok (err e) = false

abbrev pub with_answer : Delivery → Consumer → Result ℕ × Db → Verdict × Consumer
with_answer d c (answer, db) =
    let told =
      handle_unread (record d.around { parses = true; applies = is_ok answer }) d.number c.broker in
    (told.0, record { db = db; broker = told.1 })

abbrev pub consume_decoded : Delivery → Consumer → Option Envelope → Verdict × Consumer
consume_decoded d c none =
    let told = handle_unread (record d.around { parses = false }) d.number c.broker in
    (told.0, record c { broker = told.1 })
consume_decoded d c (some e) = with_answer d c (apply_event d.env e.event c.db)

-- Without metadata the message is not even decoded.
unfoldable pub handle_delivery : Delivery → Consumer → Verdict × Consumer
handle_delivery d c =
    let told = handle_unread d.around d.number c.broker in
    let worked = consume_decoded d c (decode_envelope d.payload) in
    if d.around.has_metadata then worked else (told.0, record c { broker = told.1 })

-- A node that dies before the work has done nothing; after it, its ack is lost.
unfoldable pub consume_one : Delivery → Consumer → Verdict × Consumer
consume_one d c = if d.around.survives then handle_delivery d c else (no_answer, c)

unfoldable pub consume_all : List Delivery → Consumer → Consumer
consume_all [] c = c
consume_all (d ∷ ds) c = consume_all ds (consume_one d c).1
