-- ===== src/Database/OutboxTable/Front.antt =====
-- Stamping the front of the queue takes it off (internal/database/outbox.go).
use go_chat_backend.Common.{
  ℕ, suc, ◌≤◌, ◌≡◌, refl, ap, sym, subst, ◌∙◌, inl, inr, Bool, false, not, List, [], ◌∷◌, arith,
  if◌then◌else◌, Bool-cases, take, drop, take-append-drop, ◌++◌,
}
use go_chat_backend.Common.Rows.{select, update}
use go_chat_backend.Common.Rows.Find.{Between, Between-update}
use go_chat_backend.Database.{Outbox, Tables, Db, Env, ok}
use go_chat_backend.Database.OutboxTable.{
  outbox_id, is_pending, is_in, stamp, mark_outbox_published,
}
use go_chat_backend.Database.OutboxTable.Pending.{
  queue, queue_of, InOrder, is_written, queue-stamp, mark_outbox_published-outbox,
  mark_outbox_published-ok, drop_front,
}

Between-lower :
    (key : Outbox → ℕ) (low low' : ℕ) (rows : List Outbox) (high : ℕ)
    → low' ≤ low
    → Between key low rows high
    → Between key low' rows high
Between-lower key low low' [] high h b = omega arith
Between-lower key low low' (r ∷ rows) high h b = (omega arith, b.1)

Between-lower_id :
    (low low' : ℕ) (ks : List ℕ) (high : ℕ)
    → low' ≤ low
    → Between (λ k. k) low ks high
    → Between (λ k. k) low' ks high
Between-lower_id low low' [] high h b = omega arith
Between-lower_id low low' (k ∷ ks) high h b = (omega arith, b.1)

queue_of-Between :
    (low : ℕ) (rows : List Outbox) (high : ℕ)
    → Between outbox_id low rows high
    → Between (λ k. k) low (queue_of rows) high
unfolding select
queue_of-Between low [] high b = b
queue_of-Between low (r ∷ rows) high b =
    let rest = queue_of-Between (suc r.id) rows high b.1 in
    elim (Bool-cases (is_pending r)) [
      | inl waits ↦ rw waits (b.0, rest)
      | inr sent ↦ rw sent (Between-lower_id (suc r.id) low (queue_of rows) high (omega arith) rest)
    ]

-- The stamp reaches the database.
abbrev pub stamped_rows : Env → ℕ → ℕ
stamped_rows env n = if is_written env then n else 0

drop_none : (ks : List ℕ) → drop 0 ks ≡ ks
drop_none [] = refl
drop_none (k ∷ ks) = refl

module _ (env : Env) (n high : ℕ) (db : Db) (h : InOrder db.tables high) where
  stamped :
      (ids : List ℕ)
      → ids ≡ take n (queue db.tables)
      → queue_of (update (λ r. is_in ids (outbox_id r)) (stamp env.now) db.tables.outbox)
        ≡ drop n (queue db.tables)
  stamped ids e =
      queue-stamp env.now ids db.tables.outbox
      ∙ ap (λ js. select (λ k. not (is_in js k)) (queue db.tables)) e
      ∙ drop_front (λ k. false) n 0 (queue db.tables) high (λ k p. refl)
          (queue_of-Between 0 db.tables.outbox high h)

  -- Nothing at the front: nothing to stamp.
  none_taken : [] ≡ take n (queue db.tables) → drop n (queue db.tables) ≡ queue db.tables
  none_taken e = ap (λ ks. ks ++ drop n (queue db.tables)) e ∙ take-append-drop n (queue db.tables)

  pub mark_outbox_published-taken :
      (ids : List ℕ)
      → ids ≡ take n (queue db.tables)
      → (queue (mark_outbox_published env ids db).1.tables
          ≡ drop (stamped_rows env n) (queue db.tables))
        × InOrder (mark_outbox_published env ids db).1.tables high
  mark_outbox_published-taken [] e =
      unfold mark_outbox_published in
      elim (Bool-cases (is_written env)) [
        | inl written ↦ rw written (sym (none_taken e), h)
        | inr lost_ ↦ rw lost_ (sym (drop_none (queue db.tables)), h)
      ]
  mark_outbox_published-taken (id ∷ ids) e = elim (Bool-cases (is_written env)) [
    | inl written ↦ subst Off (sym (tables ∙ ap pick written)) (
      stamped (id ∷ ids) e ∙ ap (λ b. drop (if b then n else 0) (queue db.tables)) (sym written),
      Between-update outbox_id (λ r. is_in (id ∷ ids) (outbox_id r)) (stamp env.now) (λ r. refl) 0
          db.tables.outbox high h,
    )
    | inr lost_ ↦ subst Off (sym (tables ∙ ap pick lost_)) (
      sym (drop_none (queue db.tables))
          ∙ ap (λ b. drop (if b then n else 0) (queue db.tables)) (sym lost_),
      h,
    )
  ]
    where
      pick : Bool → Tables
      pick b =
          if b
          then record db.tables {
            outbox = update (λ r. is_in (id ∷ ids) (outbox_id r)) (stamp env.now) db.tables.outbox;
          }
          else db.tables

      Off : Tables → Type 0
      Off t = (queue t ≡ drop (stamped_rows env n) (queue db.tables)) × InOrder t high

      tables : (mark_outbox_published env (id ∷ ids) db).1.tables ≡ pick (is_written env)
      tables = mark_outbox_published-outbox env id ids db

  pub mark_outbox_published-ok_taken :
      (ids : List ℕ)
      → ids ≡ take n (queue db.tables)
      → (mark_outbox_published env ids db).0 ≡ ok tt
      → queue (mark_outbox_published env ids db).1.tables ≡ drop n (queue db.tables)
  mark_outbox_published-ok_taken ids e fine = elim (mark_outbox_published-ok env ids db fine) [
    | inl q ↦
        subst (λ js. queue (mark_outbox_published env js db).1.tables ≡ drop n (queue db.tables))
          (sym q) (unfold mark_outbox_published in sym (none_taken (sym q ∙ e)))
    | inr written ↦
        (mark_outbox_published-taken ids e).0
        ∙ ap (λ b. drop (if b then n else 0) (queue db.tables)) written
  ]

-- A caller that marks the first `n` waiting rows takes exactly these off the queue when the write is
-- committed, and none otherwise; the ids of the table still rise.
pub mark_outbox_published-drop :
    (env : Env) (n high : ℕ) (db : Db)
    → InOrder db.tables high
    → (queue (mark_outbox_published env (take n (queue db.tables)) db).1.tables
        ≡ drop (stamped_rows env n) (queue db.tables))
      × InOrder (mark_outbox_published env (take n (queue db.tables)) db).1.tables high
mark_outbox_published-drop env n high db h =
    mark_outbox_published-taken env n high db h (take n (queue db.tables)) refl
