-- ===== src/Outbox/Relay/Pacing.antt =====
-- The wait after a round in which nothing goes out (runLeader of internal/outbox/relay.go).
use Prim.Native.String.{String}
use go_chat_backend.Common.{
  ℕ, ◌≡◌, refl, ap, sym, subst, ◌∙◌, false, Option, none, some, List, ◌∷◌, arith, inl, inr,
  Bool-cases, take,
}
use go_chat_backend.Common.Rows.{select}
use go_chat_backend.Event.{MessageCreated, decode_message_created}
use go_chat_backend.Database.{Outbox, Db, Result, ok, err}
use go_chat_backend.Database.Rooms.{list_conversation_member_ids}
use go_chat_backend.Database.OutboxTable.{is_pending, fetch_outbox, mark_outbox_published}
use go_chat_backend.Database.OutboxTable.Pending.{queue, InOrder, fetch_outbox_lem}
use go_chat_backend.Outbox.Relay.{
  Weather, Relay, Publish, Drained, batch_size, after_publish, after_members, after_decode, attempt,
  drain_rows, after_fetch, drain, sleep, next_round, leader_retry,
}
use go_chat_backend.Outbox.Relay.Prefix.{attempt-Kept}

-- The broker takes nothing.
abbrev pub IsShut : {W : Type 0} → Publish W → Type 0
IsShut {W} publish =
    (id : ℕ) (ev : MessageCreated) (ids : List ℕ) (w : W)
    → (reason : String) × ((publish id ev ids w).0 ≡ some reason)

module _ {W : Type 0} (publish : Publish W) (weather : Weather) (shut : IsShut publish) where
  refused-is_done :
      (row : Outbox) (r : Relay W) (reason : String) (answer : Option String × W)
      → answer.0 ≡ some reason
      → (after_publish weather row r answer).is_done ≡ false
  refused-is_done row r reason (none, w) e = cc
  refused-is_done row r reason (some s, w) e = refl

  members-is_done :
      (row : Outbox) (ev : MessageCreated) (r : Relay W) (answer : Result (List ℕ) × Db)
      → (after_members publish weather row ev r answer).is_done ≡ false
  members-is_done row ev r (err e, db) = refl
  members-is_done row ev r (ok ids, db) =
      let (reason, e) = shut row.id ev ids r.world in
      refused-is_done row (record r { db = db }) reason (publish row.id ev ids r.world) e

  attempt-is_done :
      (row : Outbox) (ev : MessageCreated) (r : Relay W)
      → decode_message_created row.payload ≡ some ev
      → (attempt publish weather row r).is_done ≡ false
  unfolding attempt
  attempt-is_done row ev r e =
      ap (λ o. (after_decode publish weather row r o).is_done) e
      ∙ members-is_done row ev r
          (list_conversation_member_ids (weather.members row.id) ev.conversation_id r.db)

  -- What a round comes to that gets no row out.
  abbrev Idle : ℕ → Relay W → Drained W → Type 0
  Idle poll r d =
      (queue d.relay.db.tables ≡ queue r.db.tables)
      × (next_round poll d.batch d.is_error ≡ sleep leader_retry)

  stuck-Idle :
      (poll high : ℕ) (row : Outbox) (rows : List Outbox) (ev : MessageCreated) (r : Relay W)
      → InOrder r.db.tables high
      → decode_message_created row.payload ≡ some ev
      → Idle poll r (after_fetch publish weather r (ok (row ∷ rows), r.db))
  unfolding drain_rows next_round mark_outbox_published
  stuck-Idle poll high row rows ev r h e =
      rw (attempt-is_done row ev r e) ((attempt-Kept publish weather high row r h).0, ground arith)

-- While the publisher takes nothing and the first row that waits is readable, a round gets nothing
-- out and keeps the queue, and the leader then waits the five seconds of `leaderRetry` and neither
-- goes straight round again nor polls at its interval; also if the table cannot be read.
pub outage-sleeps :
    {W : Type 0} (publish : Publish W) (weather : Weather) (poll high : ℕ) (row : Outbox)
    (rows : List Outbox) (ev : MessageCreated) (r : Relay W)
    → IsShut publish
    → InOrder r.db.tables high
    → select is_pending r.db.tables.outbox ≡ row ∷ rows
    → decode_message_created row.payload ≡ some ev
    → (queue (drain publish weather r).relay.db.tables ≡ queue r.db.tables)
      × (next_round poll (drain publish weather r).batch (drain publish weather r).is_error
          ≡ sleep leader_retry)
unfolding drain
outage-sleeps publish weather poll high row rows ev r shut h waiting e =
    elim (Bool-cases (weather.fetch.fails 0)) [
      | inl broken ↦ unfold fetch_outbox next_round in rw broken (refl, refl)
      | inr fine ↦
          let fetched =
            fetch_outbox_lem weather.fetch batch_size high r.db fine h
            ∙ ap (λ rs. (ok (take batch_size rs), r.db)) waiting in
          subst (λ answer. Idle publish weather shut poll r (after_fetch publish weather r answer))
            (sym fetched) (stuck-Idle publish weather shut poll high row (take 99 rows) ev r h e)
    ]
