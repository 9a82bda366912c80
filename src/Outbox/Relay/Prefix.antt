-- ===== src/Outbox/Relay/Prefix.antt =====
-- The loop of one round (Drain of internal/outbox/relay.go) and the queue it works on.
use Prim.Native.String.{String}
use go_chat_backend.Common.{
  ℕ, ◌≤◌, ◌≡◌, refl, ap, ◌∙◌, Option, none, some, List, [], ◌∷◌, map, arith, inl, inr, Bool-cases,
  take, length,
}
use go_chat_backend.Event.{MessageCreated, decode_message_created}
use go_chat_backend.Database.{Outbox, Db, Env, Result, ok, err}
use go_chat_backend.Database.Rooms.{list_conversation_member_ids}
use go_chat_backend.Database.OutboxTable.{outbox_id}
use go_chat_backend.Database.OutboxTable.Pending.{queue, InOrder, mark_outbox_failed_keeps}
use go_chat_backend.Outbox.Relay.{
  Weather, Relay, Publish, note, after_publish, after_members, after_decode, attempt, drain_rows,
}

-- The queue of a database is as before, and the ids of its table rise.
abbrev pub Kept : ℕ → Db → Db → Type 0
Kept high before after = (queue after.tables ≡ queue before.tables) × InOrder after.tables high

members-Kept :
    (env : Env) (room high : ℕ) (db : Db)
    → InOrder db.tables high
    → Kept high db (list_conversation_member_ids env room db).1
unfolding list_conversation_member_ids
members-Kept env room high db h = elim (Bool-cases (env.fails 0)) [
  | inl broken ↦ rw broken (refl, h)
  | inr fine ↦ rw fine (refl, h)
]

module _ {W : Type 0} (publish : Publish W) (weather : Weather) (high : ℕ) where
  after_publish-Kept :
      (row : Outbox) (r : Relay W) (answer : Option String × W)
      → InOrder r.db.tables high
      → Kept high r.db (after_publish weather row r answer).relay.db
  unfolding note
  after_publish-Kept row r (none, w) h = (refl, h)
  after_publish-Kept row r (some reason, w) h =
      mark_outbox_failed_keeps (weather.note row.id) row.id high reason r.db h

  after_members-Kept :
      (row : Outbox) (ev : MessageCreated) (r : Relay W) (answer : Result (List ℕ) × Db)
      → Kept high r.db answer.1
      → Kept high r.db (after_members publish weather row ev r answer).relay.db
  unfolding note
  after_members-Kept row ev r (ok ids, db) (same, h) =
      let after = after_publish-Kept row (record r { db = db }) (publish row.id ev ids r.world) h in
      (after.0 ∙ same, after.1)
  after_members-Kept row ev r (err e, db) (same, h) =
      let after = mark_outbox_failed_keeps (weather.note row.id) row.id high "list members" db h in
      (after.0 ∙ same, after.1)

  after_decode-Kept :
      (row : Outbox) (r : Relay W) (decoded : Option MessageCreated)
      → InOrder r.db.tables high
      → Kept high r.db (after_decode publish weather row r decoded).relay.db
  unfolding note
  after_decode-Kept row r none h =
      mark_outbox_failed_keeps (weather.note row.id) row.id high "undecodable payload" r.db h
  after_decode-Kept row r (some ev) h =
      after_members-Kept row ev r
        (list_conversation_member_ids (weather.members row.id) ev.conversation_id r.db)
        (members-Kept (weather.members row.id) ev.conversation_id high r.db h)

  pub attempt-Kept :
      (row : Outbox) (r : Relay W)
      → InOrder r.db.tables high
      → Kept high r.db (attempt publish weather row r).relay.db
  unfolding attempt
  attempt-Kept row r h = after_decode-Kept row r (decode_message_created row.payload) h

  -- The loop leaves the queue alone: it only writes notes on rows.
  pub drain_rows-Kept :
      (rows : List Outbox) (r : Relay W)
      → InOrder r.db.tables high
      → Kept high r.db (drain_rows publish weather rows r).1.db
  unfolding drain_rows
  drain_rows-Kept [] r h = (refl, h)
  drain_rows-Kept (row ∷ rows) r h =
      let here = attempt-Kept row r h in
      let rest = drain_rows-Kept rows (attempt publish weather row r).relay here.1 in
      elim (Bool-cases (attempt publish weather row r).is_done) [
        | inl went ↦ rw went (rest.0 ∙ here.0, rest.1)
        | inr stuck ↦ rw stuck here
      ]

-- What the loop has done is the front of the rows.
pub drain_rows_prefix :
    {W : Type 0} (publish : Publish W) (weather : Weather) (rows : List Outbox) (r : Relay W)
    → (drain_rows publish weather rows r).0
      ≡ take (length (drain_rows publish weather rows r).0) (map outbox_id rows)
unfolding drain_rows
drain_rows_prefix publish weather [] r = refl
drain_rows_prefix publish weather (row ∷ rows) r =
    let ih = drain_rows_prefix publish weather rows (attempt publish weather row r).relay in
    elim (Bool-cases (attempt publish weather row r).is_done) [
      | inl went ↦ rw went (ap (λ ks. row.id ∷ ks) ih)
      | inr stuck ↦ rw stuck refl
    ]

pub drain_rows_bound :
    {W : Type 0} (publish : Publish W) (weather : Weather) (rows : List Outbox) (r : Relay W)
    → length (drain_rows publish weather rows r).0 ≤ length rows
unfolding drain_rows
drain_rows_bound publish weather [] r = omega arith
drain_rows_bound publish weather (row ∷ rows) r =
    let ih = drain_rows_bound publish weather rows (attempt publish weather row r).relay in
    elim (Bool-cases (attempt publish weather row r).is_done) [
      | inl went ↦ rw went (omega arith)
      | inr stuck ↦ rw stuck (omega arith)
    ]
