-- ===== src/Outbox/Relay/Left.antt =====
-- A row that leaves the queue is with the publisher (Drain of internal/outbox/relay.go).
use go_chat_backend.Common.{
  ℕ, zero, suc, ◌≤◌, ◌≡◌, refl, ap, sym, subst, ◌∙◌, Bool, true, false, Option, none, some, List,
  [], ◌∷◌, map, arith, inl, inr, Bool-cases, take, drop, ◌==◌, ==→eq,
}
use go_chat_backend.Common.Rows.{select}
use go_chat_backend.Event.{Payload, MessageCreated, decode_message_created}
use go_chat_backend.Database.{Outbox}
use go_chat_backend.Database.Messages.{is_some}
use go_chat_backend.Database.OutboxTable.{outbox_id, is_pending, is_in, fetch_outbox}
use go_chat_backend.Database.OutboxTable.Pending.{queue, InOrder}
use go_chat_backend.Database.OutboxTable.Front.{stamped_rows}
use go_chat_backend.Outbox.Relay.{Weather, Relay, Publish, batch_size, drain}
use go_chat_backend.Outbox.Relay.Carried.{
  Carrier, HasRow, HasAll, AllAdmitted, rows_of, drain-Round, fetched_rows,
}
use go_chat_backend.Outbox.Relay.Payloads.{payload_of, payloads}
use go_chat_backend.Outbox.Relay.Queue.{drain-queue}

abbrev pub AllDecode : List Payload → Type 0
AllDecode [] = Unit {0}
AllDecode (p ∷ ps) = (is_some (decode_message_created p) ≡ true) × AllDecode ps

AllDecode-select :
    (p : Outbox → Bool) (rows : List Outbox)
    → AllDecode (map payload_of rows)
    → AllDecode (map payload_of (select p rows))
unfolding select
AllDecode-select p [] h = tt
AllDecode-select p (row ∷ rows) (h, hs) = elim (Bool-cases (p row)) [
  | inl here ↦ rw here (h, AllDecode-select p rows hs)
  | inr not_ ↦ rw not_ (AllDecode-select p rows hs)
]

module _ {W : Type 0} {publish : Publish W} (carrier : Carrier publish) where
  -- The publisher has some event for the id.
  abbrev pub HasId : W → ℕ → Type 0
  HasId w id = (ev : MessageCreated) × carrier.Has w id ev

  HasId-row :
      (w : W) (id : ℕ) (decoded : Option MessageCreated)
      → is_some decoded ≡ true
      → HasRow carrier w id decoded
      → HasId w id
  HasId-row w id none d h = absurd (cc)
  HasId-row w id (some ev) d h = (ev, h)

  -- A row at the front of the list whose front the publisher has.
  HasId-front :
      (w : W) (id k n m : ℕ) (rows : List Outbox)
      → k ≤ n
      → k ≤ m
      → AllDecode (map payload_of rows)
      → HasAll carrier w (take n (take m rows))
      → is_in (map outbox_id rows) id ≡ true
      → is_in (drop k (map outbox_id rows)) id ≡ false
      → HasId w id
  HasId-front w id k n m [] a b d h i j = absurd (cc)
  HasId-front w id zero n m (row ∷ rows) a b d h i j = absurd (cc)
  HasId-front w id (suc k) zero m (row ∷ rows) a b d h i j = absurd (omega arith)
  HasId-front w id (suc k) (suc n) zero (row ∷ rows) a b d h i j = absurd (omega arith)
  HasId-front w id (suc k) (suc n) (suc m) (row ∷ rows) a b d h i j =
      elim (Bool-cases (row.id == id)) [
        | inl here ↦
            subst (HasId w) (==→eq row.id id here)
              (HasId-row w row.id (decode_message_created row.payload) d.0 h.0)
        | inr later ↦
            HasId-front w id k n m rows (omega arith) (omega arith) d.1 h.1 (ground arith) j
      ]

  module _ (weather : Weather) (high : ℕ) (r : Relay W) (h : InOrder r.db.tables high) where
    broken_queue :
        weather.fetch.fails 0 ≡ true
        → queue (drain publish weather r).relay.db.tables ≡ queue r.db.tables
    unfolding drain fetch_outbox
    broken_queue broken = rw broken refl

    stamped_le : (n : ℕ) → stamped_rows weather.mark n ≤ n
    stamped_le n = ground arith

  -- After a round, each id that was in the queue is in it still, or its event is with the publisher,
  -- if all payloads of the table can be decoded.
  pub drain-left :
      (weather : Weather) (high : ℕ) (r : Relay W) (id : ℕ)
      → InOrder r.db.tables high
      → AllDecode (payloads r.db)
      → AllAdmitted carrier (rows_of carrier weather (fetch_outbox weather.fetch batch_size r.db).0)
      → is_in (queue r.db.tables) id ≡ true
      → is_in (queue (drain publish weather r).relay.db.tables) id ≡ false
      → HasId (drain publish weather r).relay.world id
  drain-left weather high r id h d a i j = elim (Bool-cases (weather.fetch.fails 0)) [
    | inl broken ↦ absurd (let e = broken_queue weather high r h broken in cc)
    | inr fine ↦
        let out = drain publish weather r in
        let waiting = select is_pending r.db.tables.outbox in
        let took = drain-queue publish weather high r h in
        let k = stamped_rows weather.mark out.batch.published in
        let below = stamped_le weather high r h out.batch.published in
        HasId-front out.relay.world id k out.batch.published batch_size waiting below
          (omega (arith, below, took.2, took.3)) (AllDecode-select is_pending r.db.tables.outbox d)
          (subst (λ rows. HasAll carrier out.relay.world (take out.batch.published rows))
            (fetched_rows carrier weather high r h fine) (drain-Round carrier weather r a).has)
          i (ap (λ q. is_in q id) (sym took.0) ∙ j)
  ]
