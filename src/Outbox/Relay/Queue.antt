-- ===== src/Outbox/Relay/Queue.antt =====
-- What one round does to the queue of waiting rows (Drain of internal/outbox/relay.go).
use go_chat_backend.Common.{
  ℕ, zero, suc, ◌≤◌, ◌≡◌, refl, ap, sym, subst, ◌∙◌, true, List, [], ◌∷◌, map, arith, inl, inr,
  Bool-cases, take, drop, length, length-take,
}
use go_chat_backend.Common.Rows.{select}
use go_chat_backend.Database.{Outbox, Db, Env, Result, ok, err}
use go_chat_backend.Database.OutboxTable.{
  outbox_id, is_pending, fetch_outbox, mark_outbox_published,
}
use go_chat_backend.Database.OutboxTable.Pending.{queue, InOrder, is_written, fetch_outbox_lem}
use go_chat_backend.Database.OutboxTable.Front.{stamped_rows, mark_outbox_published-taken}
use go_chat_backend.Outbox.Relay.{
  Weather, Relay, Publish, Drained, batch_size, drain_rows, after_mark, after_fetch, drain,
}
use go_chat_backend.Outbox.Relay.Prefix.{drain_rows-Kept, drain_rows_prefix, drain_rows_bound}

-- The front of the front of the queue.
take_front :
    (n limit : ℕ) (rows : List Outbox)
    → n ≤ length (take limit rows)
    → take n (map outbox_id (take limit rows)) ≡ take n (map outbox_id rows)
take_front zero zero [] h = refl
take_front zero zero (r ∷ rows) h = refl
take_front zero (suc limit) [] h = refl
take_front zero (suc limit) (r ∷ rows) h = refl
take_front (suc n) zero [] h = refl
take_front (suc n) zero (r ∷ rows) h = ground arith
take_front (suc n) (suc limit) [] h = refl
take_front (suc n) (suc limit) (r ∷ rows) h =
    ap (λ ks. r.id ∷ ks) (take_front n limit rows (omega arith))

pub drop_zero : (n : ℕ) (ks : List ℕ) → n ≡ 0 → drop n ks ≡ ks
drop_zero n [] h = rw h refl
drop_zero n (k ∷ ks) h = rw h refl

module _ {W : Type 0} (publish : Publish W) (weather : Weather) (high : ℕ) (r : Relay W) where
  -- A round takes as many rows off the front of the queue as it says it published, when its mark is
  -- written, and none otherwise.
  abbrev pub Took : Drained W → Type 0
  Took d =
      (queue d.relay.db.tables
        ≡ drop (stamped_rows weather.mark d.batch.published) (queue r.db.tables))
      × InOrder d.relay.db.tables high
      × (d.batch.published ≤ d.batch.fetched)
      × (d.batch.fetched ≤ batch_size)

  module _ (h : InOrder r.db.tables high) where
    nothing :
        (d : Drained W)
        → d.relay.db ≡ r.db
        → d.batch ≡ record { fetched = 0; published = 0 }
        → Took d
    nothing d same none_ =
        let zeroed : stamped_rows weather.mark d.batch.published ≡ 0 =
          rw none_ (elim (Bool-cases (is_written weather.mark)) [
            | inl e ↦ rw e refl
            | inr e ↦ rw e refl
          ]) in
        (
          ap (λ (db : Db). queue db.tables) same
              ∙ sym (
                  drop_zero (stamped_rows weather.mark d.batch.published) (queue r.db.tables)
                    zeroed),
          subst (λ (db : Db). InOrder db.tables high) (sym same) h,
          rw none_ (omega arith),
          rw none_ (omega arith),
        )

    -- The ids that the loop has done stand at the front of the queue.
    pub done_front :
        (rows : List Outbox)
        → rows ≡ take batch_size (select is_pending r.db.tables.outbox)
        → (drain_rows publish weather rows r).0
          ≡ take
              (length (drain_rows publish weather rows r).0)
              (queue (drain_rows publish weather rows r).1.db.tables)
    done_front rows e =
        let done = (drain_rows publish weather rows r).0 in
        drain_rows_prefix publish weather rows r
        ∙ ap (λ rs. take (length done) (map outbox_id rs)) e
        ∙ take_front (length done) batch_size (select is_pending r.db.tables.outbox)
            (subst (λ rs. length done ≤ length rs) e (drain_rows_bound publish weather rows r))
        ∙ ap (take (length done)) (sym (drain_rows-Kept publish weather high rows r h).0)

    marked :
        (fetched : ℕ) (done : List ℕ) (s : Relay W)
        → queue s.db.tables ≡ queue r.db.tables
        → InOrder s.db.tables high
        → done ≡ take (length done) (queue s.db.tables)
        → length done ≤ fetched
        → fetched ≤ batch_size
        → Took (after_mark fetched done s (mark_outbox_published weather.mark done s.db))
    marked fetched done s same rises front few bound =
        let off =
          mark_outbox_published-taken weather.mark (length done) high s.db rises done front in
        split (mark_outbox_published weather.mark done s.db)
          (off.0 ∙ ap (drop (stamped_rows weather.mark (length done))) same) off.1
      where
        split :
            (answer : Result (Unit {0}) × Db)
            → queue answer.1.tables
              ≡ drop (stamped_rows weather.mark (length done)) (queue r.db.tables)
            → InOrder answer.1.tables high
            → Took (after_mark fetched done s answer)
        split (ok t, db) q o = (q, o, few, bound)
        split (err e, db) q o = (q, o, few, bound)

    FetchedRows : List Outbox → Type 0
    FetchedRows rows = rows ≡ take batch_size (select is_pending r.db.tables.outbox)

    after_fetch-Took :
        (rows : List Outbox)
        → FetchedRows rows
        → Took (after_fetch publish weather r (ok rows, r.db))
    unfolding FetchedRows
    after_fetch-Took [] e = nothing (after_fetch publish weather r (ok [], r.db)) refl refl
    after_fetch-Took (row ∷ rows) e =
        let all = row ∷ rows in
        let out = drain_rows publish weather all r in
        let kept = drain_rows-Kept publish weather high all r h in
        marked (length all) out.0 out.1 kept.0 kept.1 (done_front all e)
          (drain_rows_bound publish weather all r)
          (subst (λ rs. length rs ≤ batch_size) (sym e)
            (omega (arith, length-take batch_size (select is_pending r.db.tables.outbox))))

fetch-broken :
    (env : Env) (limit : ℕ) (db : Db) → env.fails 0 ≡ true → (fetch_outbox env limit db).1 ≡ db
unfolding fetch_outbox
fetch-broken env limit db e = rw e refl

-- One round with any publisher takes rows off the front of the queue only, as many as it reports,
-- and only when the write of its mark is committed; it reports at most what it fetched, at most a
-- batch, and the ids of the table still rise.
pub drain-queue :
    {W : Type 0} (publish : Publish W) (weather : Weather) (high : ℕ) (r : Relay W)
    → InOrder r.db.tables high
    → Took publish weather high r (drain publish weather r)
unfolding drain
drain-queue publish weather high r h = elim (Bool-cases (weather.fetch.fails 0)) [
  | inl broken ↦
      nothing publish weather high r h
        (after_fetch publish weather r (fetch_outbox weather.fetch batch_size r.db))
        (unfold fetch_outbox in rw broken refl) (unfold fetch_outbox in rw broken refl)
  | inr fine ↦
      subst (λ answer. Took publish weather high r (after_fetch publish weather r answer))
        (sym (fetch_outbox_lem weather.fetch batch_size high r.db fine h))
        (after_fetch-Took publish weather high r h
          (take batch_size (select is_pending r.db.tables.outbox)) (unfold FetchedRows in refl))
]
