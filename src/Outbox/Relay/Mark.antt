-- ===== src/Outbox/Relay/Mark.antt =====
-- A round that reports no error (Drain of internal/outbox/relay.go).
use go_chat_backend.Common.{
  ℕ, ◌≡◌, refl, sym, subst, ◌∙◌, true, false, List, [], ◌∷◌, arith, inl, inr, Bool-cases, take,
  drop, length, ap,
}
use go_chat_backend.Common.Rows.{select}
use go_chat_backend.Database.{Outbox, Db, Result, ok, err}
use go_chat_backend.Database.OutboxTable.{is_pending, fetch_outbox, mark_outbox_published}
use go_chat_backend.Database.OutboxTable.Pending.{queue, InOrder, fetch_outbox_lem}
use go_chat_backend.Database.OutboxTable.Front.{mark_outbox_published-ok_taken}
use go_chat_backend.Outbox.Relay.{
  Weather, Relay, Publish, Drained, batch_size, drain_rows, after_mark, after_fetch, drain,
}
use go_chat_backend.Outbox.Relay.Prefix.{drain_rows-Kept}
use go_chat_backend.Outbox.Relay.Queue.{done_front, drop_zero}

module _ {W : Type 0} (publish : Publish W) (weather : Weather) (high : ℕ) (r : Relay W)
    (h : InOrder r.db.tables high) where
  Off : Drained W → Type 0
  Off d = queue d.relay.db.tables ≡ drop d.batch.published (queue r.db.tables)

  marked :
      (fetched : ℕ) (done : List ℕ) (s : Relay W) (answer : Result (Unit {0}) × Db)
      → (after_mark fetched done s answer).is_error ≡ false
      → (answer.0 ≡ ok tt → queue answer.1.tables ≡ drop (length done) (queue r.db.tables))
      → Off (after_mark fetched done s answer)
  unfolding Off
  marked fetched done s (ok t, db) fine off = off refl
  marked fetched done s (err e, db) fine off = ground (arith, fine)

  after_fetch-Off :
      (rows : List Outbox)
      → rows ≡ take batch_size (select is_pending r.db.tables.outbox)
      → (after_fetch publish weather r (ok rows, r.db)).is_error ≡ false
      → Off (after_fetch publish weather r (ok rows, r.db))
  after_fetch-Off [] e fine = unfold Off in sym (drop_zero 0 (queue r.db.tables) refl)
  after_fetch-Off (row ∷ rows) e fine =
      let out = drain_rows publish weather (row ∷ rows) r in
      let kept = drain_rows-Kept publish weather high (row ∷ rows) r h in
      marked (length (row ∷ rows)) out.0 out.1 (mark_outbox_published weather.mark out.0 out.1.db)
        fine
        λ done.
          mark_outbox_published-ok_taken weather.mark (length out.0) high out.1.db kept.1 out.0
            (done_front publish weather high r h (row ∷ rows) e) done
          ∙ ap (drop (length out.0)) kept.0

-- A round that reports no error has taken off the front of the queue exactly the rows that it
-- reports as published.
pub drain-ok_queue :
    {W : Type 0} (publish : Publish W) (weather : Weather) (high : ℕ) (r : Relay W)
    → InOrder r.db.tables high
    → (drain publish weather r).is_error ≡ false
    → queue (drain publish weather r).relay.db.tables
      ≡ drop (drain publish weather r).batch.published (queue r.db.tables)
unfolding drain Off fetch_outbox
drain-ok_queue publish weather high r h fine = elim (Bool-cases (weather.fetch.fails 0)) [
  | inl broken ↦ ground (arith, errs broken)
  | inr fetched ↦
      subst Fine (sym (fetch_outbox_lem weather.fetch batch_size high r.db fetched h))
        (λ f.
          after_fetch-Off publish weather high r h
            (take batch_size (select is_pending r.db.tables.outbox)) refl f)
        fine
]
  where
    Fine : Result (List Outbox) × Db → Type 0
    Fine answer =
        (after_fetch publish weather r answer).is_error ≡ false
        → Off publish weather high r h (after_fetch publish weather r answer)

    errs :
        weather.fetch.fails 0 ≡ true
        → (after_fetch publish weather r (fetch_outbox weather.fetch batch_size r.db)).is_error
          ≡ true
    errs broken = rw broken refl
