-- ===== src/Outbox/Relay/Acked.antt =====
-- What the publisher has accepted in one round (Drain of internal/outbox/relay.go).
use Prim.Native.String.{String}
use go_chat_backend.Common.{
  ℕ, ◌≡◌, refl, ap, sym, subst, ◌∙◌, Bool, true, false, Option, none, some, List, [], ◌∷◌, ◌++◌,
  map, append_assoc, append-nil, if◌then◌else◌, inl, inr, Bool-cases, take, length,
}
use go_chat_backend.Common.Rows.{select}
use go_chat_backend.Event.{MessageCreated, decode_message_created}
use go_chat_backend.Database.{Outbox, Db, Result, ok, err}
use go_chat_backend.Database.Messages.{is_some}
use go_chat_backend.Database.Rooms.{list_conversation_member_ids}
use go_chat_backend.Database.OutboxTable.{outbox_id, is_pending, mark_outbox_published}
use go_chat_backend.Database.OutboxTable.Pending.{InOrder, fetch_outbox_lem}
use go_chat_backend.Outbox.Relay.{
  Weather, Relay, Publish, Attempt, note, after_publish, after_members, after_decode, attempt,
  drain_rows, batch_size, after_mark, after_fetch, drain,
}

-- The same publisher, with a log of the rows that it has accepted.
abbrev pub log_of : {W : Type 0} → ℕ → List ℕ → Option String × W → Option String × (W × List ℕ)
log_of id log (none, w) = (none, (w, log ++ id ∷ []))
log_of id log (some reason, w) = (some reason, (w, log))

abbrev pub logged : {W : Type 0} → Publish W → Publish (W × List ℕ)
logged publish id ev ids (w, log) = log_of id log (publish id ev ids w)

abbrev pub is_readable : Outbox → Bool
is_readable row = is_some (decode_message_created row.payload)

-- The ids of the rows that can be decoded.
abbrev pub readable_ids : List Outbox → List ℕ
readable_ids rows = map outbox_id (select is_readable rows)

module _ {W : Type 0} (publish : Publish W) (weather : Weather) where
  -- The rows that went out in this attempt.
  accepted : Outbox → Bool → List ℕ
  accepted row readable = if readable then row.id ∷ [] else []

  Logs : Outbox → Relay (W × List ℕ) → Bool → Attempt (W × List ℕ) → Type 0
  Logs row r readable a =
      a.relay.world.1 ≡ r.world.1 ++ (if a.is_done then accepted row readable else [])

  published-Logs :
      (row : Outbox) (r : Relay (W × List ℕ)) (answer : Option String × W) (db : Db)
      → Logs row r true
          (after_publish weather row (record r { db = db }) (log_of row.id r.world.1 answer))
  unfolding Logs accepted note
  published-Logs row r (none, w) db = refl
  published-Logs row r (some reason, w) db = sym (append-nil r.world.1)

  members-Logs :
      (row : Outbox) (ev : MessageCreated) (r : Relay (W × List ℕ)) (answer : Result (List ℕ) × Db)
      → Logs row r true (after_members (logged publish) weather row ev r answer)
  unfolding Logs accepted note
  members-Logs row ev r (ok ids, db) = published-Logs row r (publish row.id ev ids r.world.0) db
  members-Logs row ev r (err e, db) = sym (append-nil r.world.1)

  decode-Logs :
      (row : Outbox) (r : Relay (W × List ℕ)) (decoded : Option MessageCreated)
      → Logs row r (is_some decoded) (after_decode (logged publish) weather row r decoded)
  unfolding Logs accepted note
  decode-Logs row r none = sym (append-nil r.world.1)
  decode-Logs row r (some ev) =
      members-Logs row ev r
        (list_conversation_member_ids (weather.members row.id) ev.conversation_id r.db)

  attempt-Logs :
      (row : Outbox) (r : Relay (W × List ℕ))
      → Logs row r (is_readable row) (attempt (logged publish) weather row r)
  unfolding attempt
  attempt-Logs row r = decode-Logs row r (decode_message_created row.payload)

  readable_ids-cons :
      (row : Outbox) (rows : List Outbox)
      → accepted row (is_readable row) ++ readable_ids rows ≡ readable_ids (row ∷ rows)
  unfolding accepted select
  readable_ids-cons row rows = elim (Bool-cases (is_readable row)) [
    | inl good ↦ rw good refl
    | inr bad ↦ rw bad refl
  ]

  pub drain_rows-log :
      (rows : List Outbox) (r : Relay (W × List ℕ))
      → (drain_rows (logged publish) weather rows r).1.world.1
        ≡ r.world.1
          ++ readable_ids (take (length (drain_rows (logged publish) weather rows r).0) rows)
  unfolding drain_rows Logs
  drain_rows-log [] r = unfold select in sym (append-nil r.world.1)
  drain_rows-log (row ∷ rows) r =
      let a = attempt (logged publish) weather row r in
      let here : Logs row r (is_readable row) a = attempt-Logs row r in
      let rest = drain_rows-log rows a.relay in
      let n = length (drain_rows (logged publish) weather rows a.relay).0 in
      elim (Bool-cases a.is_done) [
        | inl went ↦ rw went (
            rest
            ∙ ap (λ l. l ++ readable_ids (take n rows))
                (here
                  ∙ ap (λ b. r.world.1 ++ (if b then accepted row (is_readable row) else [])) went)
            ∙ append_assoc r.world.1 (accepted row (is_readable row)) (readable_ids (take n rows))
            ∙ ap (λ l. r.world.1 ++ l) (readable_ids-cons row (take n rows)))
        | inr stuck ↦ rw stuck (
            unfold select in
            (here
              ∙ ap (λ b. r.world.1 ++ (if b then accepted row (is_readable row) else [])) stuck))
      ]

  after_mark-log :
      (fetched : ℕ) (done : List ℕ) (r : Relay (W × List ℕ)) (answer : Result (Unit {0}) × Db)
      → ((after_mark fetched done r answer).relay.world.1 ≡ r.world.1)
        × ((after_mark fetched done r answer).batch.published ≡ length done)
  after_mark-log fetched done r (ok t, db) = (refl, refl)
  after_mark-log fetched done r (err e, db) = (refl, refl)

  -- The log of a round whose fetch answered.
  after_fetch-log :
      (rows : List Outbox) (r : Relay (W × List ℕ))
      → (after_fetch (logged publish) weather r (ok rows, r.db)).relay.world.1
        ≡ r.world.1
          ++ readable_ids
              (take (after_fetch (logged publish) weather r (ok rows, r.db)).batch.published rows)
  after_fetch-log [] r = unfold select in sym (append-nil r.world.1)
  after_fetch-log (row ∷ rows) r =
      let out = drain_rows (logged publish) weather (row ∷ rows) r in
      let marked =
        after_mark-log (length (row ∷ rows)) out.0 out.1
          (mark_outbox_published weather.mark out.0 out.1.db) in
      marked.0
      ∙ drain_rows-log (row ∷ rows) r
      ∙ ap (λ n. r.world.1 ++ readable_ids (take n (row ∷ rows))) (sym marked.1)

-- A round that reads the table has handed the publisher, in order and each once, exactly the rows
-- that it reports as published, less those whose payload cannot be decoded: no row is reported
-- before the publisher has accepted it, and none is accepted and not reported.
pub drain-log :
    {W : Type 0} (publish : Publish W) (weather : Weather) (high : ℕ) (r : Relay (W × List ℕ))
    → InOrder r.db.tables high
    → weather.fetch.fails 0 ≡ false
    → (drain (logged publish) weather r).relay.world.1
      ≡ r.world.1
        ++ readable_ids (
            take
              (drain (logged publish) weather r).batch.published
              (take batch_size (select is_pending r.db.tables.outbox)))
unfolding drain
drain-log {W} publish weather high r h fetched =
    subst Logged (sym (fetch_outbox_lem weather.fetch batch_size high r.db fetched h))
      (after_fetch-log publish weather (take batch_size (select is_pending r.db.tables.outbox)) r)
  where
    Logged : Result (List Outbox) × Db → Type 0
    Logged answer =
        (after_fetch (logged publish) weather r answer).relay.world.1
        ≡ r.world.1
          ++ readable_ids (
              take (after_fetch (logged publish) weather r answer).batch.published
                (take batch_size (select is_pending r.db.tables.outbox)))
