-- ===== src/Outbox/Relay/Progress.antt =====
-- Rounds in which nothing fails (Drain of internal/outbox/relay.go).
use Prim.Native.String.{String}
use go_chat_backend.Common.{
  ℕ, zero, suc, ◌≤◌, ◌≡◌, refl, ap, sym, ◌∙◌, Bool, true, false, Option, none, some, List, [], ◌∷◌,
  map, arith, if◌then◌else◌, take, drop, drop-nil, drop-drop, length, length-take, min, ◌+◌, ◌*◌,
}
use go_chat_backend.Common.Rows.{select}
use go_chat_backend.Event.{MessageCreated, decode_message_created}
use go_chat_backend.Database.{Outbox, Db, Result, ok, err}
use go_chat_backend.Database.Rooms.{list_conversation_member_ids}
use go_chat_backend.Database.OutboxTable.{outbox_id, is_pending, mark_outbox_published}
use go_chat_backend.Database.OutboxTable.Pending.{queue, InOrder, is_written, fetch_outbox_lem}
use go_chat_backend.Outbox.Relay.{
  Weather, Relay, Publish, after_publish, after_members, after_decode, attempt, drain_rows,
  batch_size, after_mark, after_fetch, drain,
}
use go_chat_backend.Outbox.Relay.Queue.{drain-queue, drop_zero}

-- The publisher takes every event.
abbrev pub IsOpen : {W : Type 0} → Publish W → Type 0
IsOpen {W} publish =
    (id : ℕ) (ev : MessageCreated) (ids : List ℕ) (w : W) → (publish id ev ids w).0 ≡ none

-- The reads answer and the mark is committed; the notes may fail.
pub record IsCalm (weather : Weather) : Type 0 where
  pub fetched : weather.fetch.fails 0 ≡ false
  pub members : (id : ℕ) → (weather.members id).fails 0 ≡ false
  pub marked : is_written weather.mark ≡ true

abbrev is_ok : Result (List ℕ) → Bool
is_ok (ok ids) = true
is_ok (err e) = false

-- The database after some rounds, one after the other.
unfoldable pub rounds : {W : Type 0} → Publish W → Weather → ℕ → Relay W → Relay W
rounds publish weather zero r = r
rounds publish weather (suc n) r = rounds publish weather n (drain publish weather r).relay

drop-min : (n : ℕ) (ks : List ℕ) → drop (min n (length ks)) ks ≡ drop n ks
drop-min n [] = drop-nil (min n 0) ∙ sym (drop-nil n)
drop-min zero (k ∷ ks) =
    let e : min 0 (length (k ∷ ks)) ≡ 0 = omega arith in ap (λ m. drop m (k ∷ ks)) e
drop-min (suc n) (k ∷ ks) =
    let e : min (suc n) (length (k ∷ ks)) ≡ suc (min n (length ks)) = omega arith in
    ap (λ m. drop m (k ∷ ks)) e ∙ drop-min n ks

length-queue : (rows : List Outbox) → length (map outbox_id rows) ≡ length rows
length-queue [] = refl
length-queue (r ∷ rows) = ap suc (length-queue rows)

module _ {W : Type 0} (publish : Publish W) (weather : Weather) (opened : IsOpen publish)
    (calm : IsCalm weather) where
  published-is_done :
      (row : Outbox) (r : Relay W) (answer : Option String × W)
      → answer.0 ≡ none
      → (after_publish weather row r answer).is_done ≡ true
  published-is_done row r (none, w) e = refl
  published-is_done row r (some reason, w) e = ground (arith, e)

  members-is_done :
      (row : Outbox) (ev : MessageCreated) (r : Relay W) (answer : Result (List ℕ) × Db)
      → is_ok answer.0 ≡ true
      → (after_members publish weather row ev r answer).is_done ≡ true
  members-is_done row ev r (ok js, db) e =
      published-is_done row (record r { db = db }) (publish row.id ev js r.world)
        (opened row.id ev js r.world)
  members-is_done row ev r (err x, db) e = ground (arith, e)

  decode-is_done :
      (row : Outbox) (r : Relay W) (decoded : Option MessageCreated)
      → (after_decode publish weather row r decoded).is_done ≡ true
  unfolding list_conversation_member_ids
  decode-is_done row r none = refl
  decode-is_done row r (some ev) =
      members-is_done row ev r
        (list_conversation_member_ids (weather.members row.id) ev.conversation_id r.db)
        (rw (calm.members row.id) refl)

  attempt-is_done : (row : Outbox) (r : Relay W) → (attempt publish weather row r).is_done ≡ true
  unfolding attempt
  attempt-is_done row r = decode-is_done row r (decode_message_created row.payload)

  drain_rows-all :
      (rows : List Outbox) (r : Relay W)
      → length (drain_rows publish weather rows r).0 ≡ length rows
  unfolding drain_rows
  drain_rows-all [] r = refl
  drain_rows-all (row ∷ rows) r =
      rw (attempt-is_done row r)
        (ap (λ n. suc n) (drain_rows-all rows (attempt publish weather row r).relay))

  after_mark-published :
      (fetched : ℕ) (done : List ℕ) (r : Relay W) (answer : Result (Unit {0}) × Db)
      → (after_mark fetched done r answer).batch.published ≡ length done
  after_mark-published fetched done r (ok t, db) = refl
  after_mark-published fetched done r (err e, db) = refl

  after_fetch-published :
      (rows : List Outbox) (r : Relay W)
      → (after_fetch publish weather r (ok rows, r.db)).batch.published ≡ length rows
  after_fetch-published [] r = refl
  after_fetch-published (row ∷ rows) r =
      let out = drain_rows publish weather (row ∷ rows) r in
      after_mark-published (length (row ∷ rows)) out.0 out.1
        (mark_outbox_published weather.mark out.0 out.1.db)
      ∙ drain_rows-all (row ∷ rows) r

  drain-published :
      (high : ℕ) (r : Relay W)
      → InOrder r.db.tables high
      → (drain publish weather r).batch.published ≡ min batch_size (length (queue r.db.tables))
  unfolding drain
  drain-published high r h =
      let waiting = select is_pending r.db.tables.outbox in
      ap (λ answer. (after_fetch publish weather r answer).batch.published)
        (fetch_outbox_lem weather.fetch batch_size high r.db calm.fetched h)
      ∙ after_fetch-published (take batch_size waiting) r
      ∙ length-take batch_size waiting
      ∙ ap (min batch_size) (sym (length-queue waiting))

  drain-batch :
      (high : ℕ) (r : Relay W)
      → InOrder r.db.tables high
      → queue (drain publish weather r).relay.db.tables ≡ drop batch_size (queue r.db.tables)
  drain-batch high r h =
      let d = drain publish weather r in
      (drain-queue publish weather high r h).0
      ∙ ap (λ b. drop (if b then d.batch.published else 0) (queue r.db.tables)) calm.marked
      ∙ ap (λ n. drop n (queue r.db.tables)) (drain-published high r h)
      ∙ drop-min batch_size (queue r.db.tables)

  rounds-drop :
      (n high : ℕ) (r : Relay W)
      → InOrder r.db.tables high
      → queue (rounds publish weather n r).db.tables ≡ drop (n * batch_size) (queue r.db.tables)
  unfolding rounds
  rounds-drop zero high r h = sym (drop_zero 0 (queue r.db.tables) refl)
  rounds-drop (suc n) high r h =
      let d = drain publish weather r in
      rounds-drop n high d.relay (drain-queue publish weather high r h).1
      ∙ ap (drop (n * batch_size)) (drain-batch high r h)
      ∙ drop-drop (n * batch_size) batch_size (queue r.db.tables)
      ∙ ap (λ k. drop k (queue r.db.tables)) more
    where
      more : batch_size + n * batch_size ≡ suc n * batch_size
      more = omega arith

drop_all : (n : ℕ) (ks : List ℕ) → length ks ≤ n → drop n ks ≡ []
drop_all n [] h = drop-nil n
drop_all zero (k ∷ ks) h = ground arith
drop_all (suc n) (k ∷ ks) h = drop_all n ks (omega arith)

-- While the publisher takes everything and the reads and the mark succeed, as many rounds as there
-- are full batches of 100 in the queue, rounded up, empty it.
pub rounds-queue :
    {W : Type 0} (publish : Publish W) (weather : Weather) (n high : ℕ) (r : Relay W)
    → IsOpen publish
    → IsCalm weather
    → InOrder r.db.tables high
    → length (queue r.db.tables) ≤ n * batch_size
    → queue (rounds publish weather n r).db.tables ≡ []
rounds-queue publish weather n high r opened calm h few =
    rounds-drop publish weather opened calm n high r h
    ∙ drop_all (n * batch_size) (queue r.db.tables) few
