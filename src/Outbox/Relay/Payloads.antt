-- ===== src/Outbox/Relay/Payloads.antt =====
-- The rows of the outbox keep their ids and payloads: a round of the relay (internal/outbox/relay.go) only
-- stamps rows and writes notes on them.
use Prim.Native.String.{String}
use go_chat_backend.Common.{
  ℕ, ◌≡◌, refl, ap, ◌∙◌, Bool, Option, none, some, List, [], ◌∷◌, map, arith, inl, inr, Bool-cases,
  ◌==◌, sym,
}
use go_chat_backend.Common.Rows.{update}
use go_chat_backend.Event.{Payload, MessageCreated, decode_message_created}
use go_chat_backend.Database.{Outbox, Tables, Db, Env, Result, ok, err}
use go_chat_backend.Database.Rooms.{list_conversation_member_ids}
use go_chat_backend.Database.OutboxTable.{
  outbox_id, is_in, stamp, note_failure, truncate, fetch_outbox, mark_outbox_failed,
  mark_outbox_published,
}
use go_chat_backend.Database.OutboxTable.Pending.{
  is_written, mark_outbox_failed-outbox, mark_outbox_published-outbox,
}
use go_chat_backend.Outbox.Relay.{
  Weather, Relay, Publish, note, after_publish, after_members, after_decode, attempt, drain_rows,
  after_mark, after_fetch, batch_size, drain,
}

abbrev pub key_of : Outbox → ℕ × Payload
key_of row = (row.id, row.payload)

abbrev pub keys : Db → List (ℕ × Payload)
keys db = map key_of db.tables.outbox

abbrev pub payload_of : Outbox → Payload
payload_of row = row.payload

abbrev pub payloads : Db → List Payload
payloads db = map payload_of db.tables.outbox

second : ℕ × Payload → Payload
second k = k.1

payloads-keys : (rows : List Outbox) → map payload_of rows ≡ map second (map key_of rows)
unfolding second
payloads-keys [] = refl
payloads-keys (row ∷ rows) = ap (λ ps. row.payload ∷ ps) (payloads-keys rows)

map-update :
    (p : Outbox → Bool) (f : Outbox → Outbox) (rows : List Outbox)
    → ((row : Outbox) → key_of (f row) ≡ key_of row)
    → map key_of (update p f rows) ≡ map key_of rows
unfolding update
map-update p f [] h = refl
map-update p f (row ∷ rows) h = ground (arith, map-update p f rows h, h row)

mark_outbox_failed-keys :
    (env : Env) (id : ℕ) (reason : String) (db : Db)
    → keys (mark_outbox_failed env id reason db).1 ≡ keys db
mark_outbox_failed-keys env id reason db =
    ap (λ (t : Tables). map key_of t.outbox) (mark_outbox_failed-outbox env id reason db)
    ∙ elim (Bool-cases (is_written env)) [
      | inl yes_ ↦ rw yes_ (
          map-update (λ r. outbox_id r == id) (note_failure (truncate reason)) db.tables.outbox
            (λ row. refl))
      | inr no_ ↦ rw no_ refl
    ]

mark_outbox_published-keys :
    (env : Env) (ids : List ℕ) (db : Db) → keys (mark_outbox_published env ids db).1 ≡ keys db
mark_outbox_published-keys env [] db = unfold mark_outbox_published in refl
mark_outbox_published-keys env (id ∷ ids) db =
    ap (λ (t : Tables). map key_of t.outbox) (mark_outbox_published-outbox env id ids db)
    ∙ elim (Bool-cases (is_written env)) [
      | inl yes_ ↦ rw yes_ (
          map-update (λ r. is_in (id ∷ ids) (outbox_id r)) (stamp env.now) db.tables.outbox
            (λ row. refl))
      | inr no_ ↦ rw no_ refl
    ]

fetch_outbox-same : (env : Env) (limit : ℕ) (db : Db) → (fetch_outbox env limit db).1 ≡ db
unfolding fetch_outbox
fetch_outbox-same env limit db = elim (Bool-cases (env.fails 0)) [
  | inl broken ↦ rw broken refl
  | inr fine ↦ rw fine refl
]

members-same : (env : Env) (room : ℕ) (db : Db) → (list_conversation_member_ids env room db).1 ≡ db
unfolding list_conversation_member_ids
members-same env room db = elim (Bool-cases (env.fails 0)) [
  | inl broken ↦ rw broken refl
  | inr fine ↦ rw fine refl
]

module _ {W : Type 0} (publish : Publish W) (weather : Weather) where
  after_publish-keys :
      (row : Outbox) (r : Relay W) (answer : Option String × W)
      → keys (after_publish weather row r answer).relay.db ≡ keys r.db
  unfolding note
  after_publish-keys row r (none, w) = refl
  after_publish-keys row r (some reason, w) =
      mark_outbox_failed-keys (weather.note row.id) row.id reason r.db

  after_members-keys :
      (row : Outbox) (ev : MessageCreated) (r : Relay W) (answer : Result (List ℕ) × Db)
      → keys (after_members publish weather row ev r answer).relay.db ≡ keys answer.1
  unfolding note
  after_members-keys row ev r (ok ids, db) =
      after_publish-keys row (record r { db = db }) (publish row.id ev ids r.world)
  after_members-keys row ev r (err e, db) =
      mark_outbox_failed-keys (weather.note row.id) row.id "list members" db

  after_decode-keys :
      (row : Outbox) (r : Relay W) (decoded : Option MessageCreated)
      → keys (after_decode publish weather row r decoded).relay.db ≡ keys r.db
  unfolding note
  after_decode-keys row r none =
      mark_outbox_failed-keys (weather.note row.id) row.id "undecodable payload" r.db
  after_decode-keys row r (some ev) =
      after_members-keys row ev r
        (list_conversation_member_ids (weather.members row.id) ev.conversation_id r.db)
      ∙ ap keys (members-same (weather.members row.id) ev.conversation_id r.db)

  drain_rows-keys :
      (rows : List Outbox) (r : Relay W) → keys (drain_rows publish weather rows r).1.db ≡ keys r.db
  unfolding drain_rows attempt
  drain_rows-keys [] r = refl
  drain_rows-keys (row ∷ rows) r =
      let one = after_decode publish weather row r (decode_message_created row.payload) in
      let here = after_decode-keys row r (decode_message_created row.payload) in
      elim (Bool-cases one.is_done) [
        | inl went ↦ rw went (drain_rows-keys rows one.relay ∙ here)
        | inr stuck ↦ rw stuck here
      ]

  after_mark-keys :
      (fetched : ℕ) (done : List ℕ) (r : Relay W) (answer : Result (Unit {0}) × Db)
      → keys (after_mark fetched done r answer).relay.db ≡ keys answer.1
  after_mark-keys fetched done r (ok t, db) = refl
  after_mark-keys fetched done r (err e, db) = refl

  after_fetch-keys :
      (r : Relay W) (answer : Result (List Outbox) × Db)
      → keys (after_fetch publish weather r answer).relay.db ≡ keys answer.1
  after_fetch-keys r (err e, db) = refl
  after_fetch-keys r (ok [], db) = refl
  after_fetch-keys r (ok (row ∷ rows), db) =
      let out = drain_rows publish weather (row ∷ rows) (record r { db = db }) in
      after_mark-keys _ out.0 out.1 (mark_outbox_published weather.mark out.0 out.1.db)
      ∙ mark_outbox_published-keys weather.mark out.0 out.1.db
      ∙ drain_rows-keys (row ∷ rows) (record r { db = db })

  pub drain-keys : (r : Relay W) → keys (drain publish weather r).relay.db ≡ keys r.db
  unfolding drain
  drain-keys r =
      after_fetch-keys r (fetch_outbox weather.fetch batch_size r.db)
      ∙ ap keys (fetch_outbox-same weather.fetch batch_size r.db)

  pub drain-payloads : (r : Relay W) → payloads (drain publish weather r).relay.db ≡ payloads r.db
  drain-payloads r =
      payloads-keys (drain publish weather r).relay.db.tables.outbox
      ∙ ap (map second) (drain-keys r)
      ∙ sym (payloads-keys r.db.tables.outbox)
