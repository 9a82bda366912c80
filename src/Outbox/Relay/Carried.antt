-- ===== src/Outbox/Relay/Carried.antt =====
-- What a round of the relay does to its publisher, told from what one Publish does to it
-- (internal/outbox/relay.go). A publisher's module fills Carrier, and has the theorem for a round.
use Prim.Native.String.{String}
use go_chat_backend.Common.{
  ℕ, ◌≡◌, refl, ap, true, false, Option, none, some, List, [], ◌∷◌, inl, inr, Bool-cases, take,
  length,
}
use go_chat_backend.Common.Rows.{select}
use go_chat_backend.Event.{MessageCreated, decode_message_created}
use go_chat_backend.Database.{Outbox, Db, Result, ok, err}
use go_chat_backend.Database.Rooms.{list_conversation_member_ids}
use go_chat_backend.Database.OutboxTable.{is_pending, mark_outbox_published, fetch_outbox}
use go_chat_backend.Database.OutboxTable.Pending.{InOrder, fetch_outbox_lem}
use go_chat_backend.Outbox.Relay.{
  Weather, Relay, Publish, Attempt, Drained, note, after_publish, after_members, after_decode,
  attempt, drain_rows, batch_size, after_mark, after_fetch, drain,
}

-- How the publisher's state moves, and what it has once a row's event is accepted; only rows whose ids
-- and events are admitted are handed over.
pub record Carrier {W : Type 0} (publish : Publish W) : Type 1 where
  pub Moves : W → W → Type 0
  pub Has : W → ℕ → MessageCreated → Type 0
  pub Admits : ℕ → MessageCreated → Type 0
  pub stays : (w : W) → Moves w w
  pub joins : (w w' w'' : W) → Moves w w' → Moves w' w'' → Moves w w''
  pub keeps : (w w' : W) (id : ℕ) (ev : MessageCreated) → Moves w w' → Has w id ev → Has w' id ev
  pub moved :
      (id : ℕ) (ev : MessageCreated) (ids : List ℕ) (w : W)
      → Admits id ev
      → Moves w (publish id ev ids w).1
  pub finished :
      (id : ℕ) (ev : MessageCreated) (ids : List ℕ) (w : W)
      → Admits id ev
      → (publish id ev ids w).0 ≡ none
      → Has (publish id ev ids w).1 id ev

module _ {W : Type 0} {publish : Publish W} (carrier : Carrier publish) where
  abbrev pub HasRow : W → ℕ → Option MessageCreated → Type 0
  HasRow w id none = Unit {0}
  HasRow w id (some ev) = carrier.Has w id ev

  -- The publisher has each row's event, if there is one.
  abbrev pub HasAll : W → List Outbox → Type 0
  HasAll w [] = Unit {0}
  HasAll w (row ∷ rows) = HasRow w row.id (decode_message_created row.payload) × HasAll w rows

  -- The row's event is admitted, if there is one.
  abbrev pub IsAdmitted : Outbox → Type 0
  IsAdmitted row =
      (ev : MessageCreated)
      → decode_message_created row.payload ≡ some ev
      → carrier.Admits row.id ev

  abbrev pub AllAdmitted : List Outbox → Type 0
  AllAdmitted [] = Unit {0}
  AllAdmitted (row ∷ rows) = IsAdmitted row × AllAdmitted rows

module _ {W : Type 0} {publish : Publish W} (carrier : Carrier publish) (weather : Weather) where
  Worked : W → ℕ → Option MessageCreated → Attempt W → Type 0
  Worked w id decoded a =
      carrier.Moves w a.relay.world × (a.is_done ≡ true → HasRow carrier a.relay.world id decoded)

  published-Worked :
      (row : Outbox) (ev : MessageCreated) (r : Relay W) (w : W) (answer : Option String × W)
      → carrier.Moves w answer.1
      → (answer.0 ≡ none → carrier.Has answer.1 row.id ev)
      → Worked w row.id (some ev) (after_publish weather row r answer)
  unfolding Worked note
  published-Worked row ev r w (none, w') m f = (m, λ h. f refl)
  published-Worked row ev r w (some reason, w') m f = (m, λ h. absurd (cc))

  members-Worked :
      (row : Outbox) (ev : MessageCreated) (r : Relay W) (answer : Result (List ℕ) × Db)
      → carrier.Admits row.id ev
      → Worked r.world row.id (some ev) (after_members publish weather row ev r answer)
  unfolding Worked note
  members-Worked row ev r (ok ids, db) a =
      published-Worked row ev (record r { db = db }) r.world (publish row.id ev ids r.world)
        (carrier.moved row.id ev ids r.world a) (carrier.finished row.id ev ids r.world a)
  members-Worked row ev r (err e, db) a = (carrier.stays r.world, λ h. absurd (cc))

  decode-Worked :
      (row : Outbox) (r : Relay W) (decoded : Option MessageCreated)
      → ((ev : MessageCreated) → decoded ≡ some ev → carrier.Admits row.id ev)
      → Worked r.world row.id decoded (after_decode publish weather row r decoded)
  unfolding Worked note
  decode-Worked row r none a = (carrier.stays r.world, λ h. tt)
  decode-Worked row r (some ev) a =
      members-Worked row ev r
        (list_conversation_member_ids (weather.members row.id) ev.conversation_id r.db) (a ev refl)

  attempt-Worked :
      (row : Outbox) (r : Relay W)
      → IsAdmitted carrier row
      → Worked r.world row.id (decode_message_created row.payload) (attempt publish weather row r)
  unfolding attempt
  attempt-Worked row r a = decode-Worked row r (decode_message_created row.payload) a

  HasRow-later :
      (w w' : W) (id : ℕ) (decoded : Option MessageCreated)
      → carrier.Moves w w'
      → HasRow carrier w id decoded
      → HasRow carrier w' id decoded
  HasRow-later w w' id none m h = tt
  HasRow-later w w' id (some ev) m h = carrier.keeps w w' id ev m h

  Ran : W → List Outbox → List ℕ × Relay W → Type 0
  Ran w rows out =
      carrier.Moves w out.1.world × HasAll carrier out.1.world (take (length out.0) rows)

  drain_rows-Ran :
      (rows : List Outbox) (r : Relay W)
      → AllAdmitted carrier rows
      → Ran r.world rows (drain_rows publish weather rows r)
  unfolding drain_rows Ran Worked
  drain_rows-Ran [] r a = (carrier.stays r.world, tt)
  drain_rows-Ran (row ∷ rows) r (a, more) =
      let one = attempt publish weather row r in
      let here : Worked r.world row.id (decode_message_created row.payload) one =
        attempt-Worked row r a in
      let rest = drain_rows-Ran rows one.relay more in
      elim (Bool-cases one.is_done) [
        | inl went ↦ rw went (
          carrier.joins _ _ _ here.0 rest.0,
          (
            HasRow-later _ _ row.id (decode_message_created row.payload) rest.0 (here.1 went),
            rest.1,
          ),
        )
        | inr stuck ↦ rw stuck (here.0, tt)
      ]

  -- The rows that the round has read.
  abbrev pub rows_of : Result (List Outbox) → List Outbox
  rows_of (ok rows) = rows
  rows_of (err e) = []

  -- A round: how the publisher moved, and that it has the rows that the round reports.
  pub record Round (w : W) (rows : List Outbox) (d : Drained W) : Type 0 where
    pub moves : carrier.Moves w d.relay.world
    pub has : HasAll carrier d.relay.world (take d.batch.published rows)

  after_mark-Round :
      (w : W) (rows : List Outbox) (fetched : ℕ) (out : List ℕ × Relay W)
      (answer : Result (Unit {0}) × Db)
      → Ran w rows out
      → Round w rows (after_mark fetched out.0 out.1 answer)
  unfolding Ran
  after_mark-Round w rows fetched out (ok t, db) (m, h) = record { moves = m; has = h }
  after_mark-Round w rows fetched out (err e, db) (m, h) = record { moves = m; has = h }

  after_fetch-Round :
      (r : Relay W) (answer : Result (List Outbox) × Db)
      → AllAdmitted carrier (rows_of answer.0)
      → Round r.world (rows_of answer.0) (after_fetch publish weather r answer)
  after_fetch-Round r (err e, db) a = record { moves = carrier.stays r.world; has = tt }
  after_fetch-Round r (ok [], db) a = record { moves = carrier.stays r.world; has = tt }
  after_fetch-Round r (ok (row ∷ rows), db) a =
      let out = drain_rows publish weather (row ∷ rows) (record r { db = db }) in
      after_mark-Round r.world (row ∷ rows) (length (row ∷ rows)) out
        (mark_outbox_published weather.mark out.0 out.1.db)
        (drain_rows-Ran (row ∷ rows) (record r { db = db }) a)

  pub drain-Round :
      (r : Relay W)
      → AllAdmitted carrier (rows_of (fetch_outbox weather.fetch batch_size r.db).0)
      → Round r.world
          (rows_of (fetch_outbox weather.fetch batch_size r.db).0)
          (drain publish weather r)
  unfolding drain
  drain-Round r a = after_fetch-Round r (fetch_outbox weather.fetch batch_size r.db) a

  -- The rows that a round reads, when it reads the table.
  pub fetched_rows :
      (high : ℕ) (r : Relay W)
      → InOrder r.db.tables high
      → weather.fetch.fails 0 ≡ false
      → rows_of (fetch_outbox weather.fetch batch_size r.db).0
        ≡ take batch_size (select is_pending r.db.tables.outbox)
  fetched_rows high r h fetched =
      ap (λ a. rows_of a.0) (fetch_outbox_lem weather.fetch batch_size high r.db fetched h)
