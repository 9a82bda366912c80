-- ===== src/Database/Messages/Atomic.antt =====
-- A message and the instruction to deliver it are written together or not at all
-- (CreateMessage of internal/database/conversations.go).
use go_chat_backend.Common.{
  ℕ, ◌≡◌, ◌≢◌, refl, ap, sym, subst, ◌∙◌, ◌⊎◌, inl, inr, Bool, true, none, [], ◌∷◌, ◌++◌, arith,
  ltb, ◌==◌, Bool-cases, Option-cases,
}
use go_chat_backend.Common.Rows.{update, find}
use go_chat_backend.Event.{json, encode, year_10000}
use go_chat_backend.Database.{
  Message, Outbox, Tables, Db, Env, Commit, done, refused, lost, Result, ok, err, commit_of, failed,
  Error, conversation_not_found, duplicated_key,
}
use go_chat_backend.Database.Messages.{
  Draft, create_message, write_message, resolve, allocate_seq, insert_message, insert_outbox,
  message_of, event_of, live_room, bumped, returned, refused_insert, topic_message_created,
}

-- The number that the next message of a room gets; 0 if there is no such room.
abbrev pub next_seq : ℕ → Tables → ℕ
next_seq conversation_id t =
    returned
      (find (live_room conversation_id) (update (live_room conversation_id) bumped t.conversations))

-- The message that a draft becomes.
abbrev pub stored_message : Env → Draft → Db → Message
stored_message env d db = record (message_of env d (next_seq d.conversation_id db.tables)) {
  id = db.serials.messages;
}

abbrev pub outbox_row : Env → Draft → Db → Outbox
outbox_row env d db = record {
  id = db.serials.outbox;
  topic = topic_message_created;
  payload = json (event_of d.sender_name (stored_message env d db));
  trace_context = env.trace;
  created_at = env.now;
  published_at = none;
  attempts = 0;
  last_error = none;
}

-- One number taken in the room, one message, one outbox row that waits.
abbrev pub stored : Env → Draft → Db → Tables
stored env d db = record db.tables {
  conversations = update (live_room d.conversation_id) bumped db.tables.conversations;
  messages = db.tables.messages ++ stored_message env d db ∷ [];
  outbox = db.tables.outbox ++ outbox_row env d db ∷ [];
}

-- What must hold for the transaction to get to its end.
pub record Written (env : Env) (d : Draft) (db : Db) (r : Result Message × Db) : Type 0 where
  pub tables : r.1.tables ≡ stored env d db
  pub message : r.0 ≡ ok (stored_message env d db)
  pub seq : next_seq d.conversation_id db.tables ≢ 0
  pub accepted : refused_insert db.tables (stored_message env d db) ≡ none

pub write_message-Written :
    (env : Env) (d : Draft) (db : Db)
    → ((e : Error) × ((write_message env d db).0 ≡ err e))
      ⊎ Written env d db (write_message env d db)
unfolding write_message allocate_seq insert_message insert_outbox encode
write_message-Written env d db =
    let seq = next_seq d.conversation_id db.tables in
    let m = stored_message env d db in
    elim (Bool-cases (env.fails 0)) [
      | inl f0 ↦ inl (failed, rw f0)
      | inr g0 ↦ elim (Bool-cases (seq == 0)) [
        | inl none_left ↦ inl (conversation_not_found, rw (g0, none_left))
        | inr some_seq ↦ elim (Bool-cases (env.fails 1)) [
          | inl f1 ↦ inl (failed, rw (g0, some_seq, f1))
          | inr g1 ↦ elim (Option-cases (refused_insert db.tables m)) [
            | inr (e, refused_) ↦ inl (e, rw (g0, some_seq, g1, refused_))
            | inl accepted ↦ elim (Bool-cases (ltb m.created_at year_10000)) [
              | inr late ↦ inl (failed, rw (g0, some_seq, g1, accepted, late))
              | inl early ↦ elim (Bool-cases (env.fails 2)) [
                | inl f2 ↦ inl (failed, rw (g0, some_seq, g1, accepted, early, f2))
                | inr g2 ↦ inr (record {
                  tables = rw (g0, some_seq, g1, accepted, early, g2);
                  message = rw (g0, some_seq, g1, accepted, early, g2);
                  seq = λ z. ground arith;
                  accepted = accepted;
                })
              ]
            ]
          ]
        ]
      ]
    ]

-- What a call of `create_message` can come to.
abbrev pub NothingWritten : Env → Draft → Db → Type 0
NothingWritten env d db =
    ((create_message env d db).1.tables ≡ db.tables)
    × ((m : Message) → (create_message env d db).0 ≢ ok (m, true))

abbrev pub BothWritten : Env → Draft → Db → Type 0
BothWritten env d db =
    ((create_message env d db).1.tables ≡ stored env d db)
    × (((create_message env d db).0 ≡ ok (stored_message env d db, true))
        ⊎ ((env.commit ≡ lost) × ((create_message env d db).0 ≡ err failed)))
    × (next_seq d.conversation_id db.tables ≢ 0)
    × (refused_insert db.tables (stored_message env d db) ≡ none)

-- A transaction that ends in an error leaves the tables as they were.
pub commit_of-err :
    {A : Type 0} (c : Commit) (before : Tables) (e : Error) (r : Result A × Db)
    → r.0 ≡ err e
    → commit_of c before r ≡ (err e, record r.1 { tables = before })
commit_of-err c before e (ok a, db) h = cc
commit_of-err done before e (err e', db) h = cc
commit_of-err refused before e (err e', db) h = cc
commit_of-err lost before e (err e', db) h = cc

pub resolve-err :
    (env : Env) (d : Draft) (e : Error) (db : Db)
    → ((resolve env d (err e, db)).1 ≡ db)
      × ((m : Message) → (resolve env d (err e, db)).0 ≢ ok (m, true))
unfolding resolve
resolve-err env d duplicated_key db = (ground arith, λ m. ground arith)
resolve-err env d _ db = (refl, λ m h. cc)

abbrev Kept : Tables → Result (Message × Bool) × Db → Type 0
Kept t r = (r.1.tables ≡ t) × ((m : Message) → r.0 ≢ ok (m, true))

resolve-commit_err :
    (env : Env) (d : Draft) (c : Commit) (t : Tables) (e : Error) (r : Result Message × Db)
    → r.0 ≡ err e
    → Kept t (resolve env d (commit_of c t r))
resolve-commit_err env d c t e r h =
    let q = resolve-err env d e (record r.1 { tables = t }) in
    subst (λ x. Kept t (resolve env d x)) (sym (commit_of-err c t e r h))
      (ap (λ (x : Db). x.tables) q.0, q.1)

resolve-commit_ok :
    (env : Env) (d : Draft) (c : Commit) (t : Tables) (m : Message) (r : Result Message × Db)
    → r.0 ≡ ok m
    → Kept t (resolve env d (commit_of c t r))
      ⊎ (((resolve env d (commit_of c t r)).1.tables ≡ r.1.tables)
          × (((resolve env d (commit_of c t r)).0 ≡ ok (m, true))
              ⊎ ((c ≡ lost) × ((resolve env d (commit_of c t r)).0 ≡ err failed))))
unfolding resolve
resolve-commit_ok env d c t m (err e, db) h = cc
resolve-commit_ok env d done t m (ok a, db) h = inr (refl, inl (ground arith))
resolve-commit_ok env d refused t m (ok a, db) h = inl (refl, λ m' h'. cc)
resolve-commit_ok env d lost t m (ok a, db) h = inr (refl, inr (refl, refl))

-- However a call ends, in success, with any failed statement, or with a commit that is refused or
-- whose answer is lost, either nothing is written, and then nobody is told of a new message, or the
-- number, the message and its outbox row are written together, and then the caller holds that
-- message unless the answer of the commit was lost.
pub create_message_atomic :
    (env : Env) (d : Draft) (db : Db) → NothingWritten env d db ⊎ BothWritten env d db
unfolding create_message
create_message_atomic env d db =
    let r = write_message env d db in
    elim (write_message-Written env d db) [
      | inl (e, h) ↦ inl (resolve-commit_err env d env.commit db.tables e r h)
      | inr w ↦
          elim (resolve-commit_ok env d env.commit db.tables (stored_message env d db) r
            w.message) [
              | inl kept ↦ inl kept
              | inr (same, answer) ↦ inr (same ∙ w.tables, answer, w.seq, w.accepted)
            ]
    ]
