-- ===== src/Database/Messages/Retry.antt =====
-- Sending a message again under the same client_msg_id (CreateMessage of
-- internal/database/conversations.go).
use Prim.Native.String.{String}
use text.Mathlib.TextPositions.{eq_refl}
use go_chat_backend.Common.{
  ℕ, ◌≡◌, ◌≢◌, refl, ap, sym, subst, ◌∙◌, Bool, true, false, none, some, [], ◌∷◌, arith, inl, inr,
  Option-cases, if◌then◌else◌, ne→==,
}
use go_chat_backend.Common.Rows.{find, update}
use go_chat_backend.Common.Rows.Find.{find-append, find-update, find-holds, changed, or_else}
use go_chat_backend.Database.{Message, Tables, Db, Env, Result, ok, err, duplicated_key}
use go_chat_backend.Database.Messages.{
  Draft, create_message, write_message, resolve, allocate_seq, insert_message, live_room, bumped,
  returned, refused_insert, by_client_msg_id, is_some, same_key,
}
use go_chat_backend.Database.Messages.Atomic.{
  next_seq, stored, stored_message, BothWritten, commit_of-err,
}

-- The insert of a key that is taken is refused.
refused-taken :
    (t : Tables) (m first : Message)
    → find (by_client_msg_id m.conversation_id m.sender_id m.client_msg_id) t.messages ≡ some first
    → refused_insert t m ≡ some duplicated_key
refused-taken t m first h = rw h

write_message-taken :
    (env : Env) (d : Draft) (db : Db) (first : Message)
    → ((n : ℕ) → env.fails n ≡ false)
    → next_seq d.conversation_id db.tables ≢ 0
    → find (by_client_msg_id d.conversation_id d.sender_id d.client_msg_id) db.tables.messages
      ≡ some first
    → (write_message env d db).0 ≡ err duplicated_key
unfolding write_message allocate_seq insert_message
write_message-taken env d db first g h taken = rw (
  g 0,
  ne→== (next_seq d.conversation_id db.tables) 0 h,
  g 1,
  refused-taken db.tables (stored_message env d db) first taken,
)

resolve-taken :
    (env : Env) (d : Draft) (db : Db) (key : String) (first : Message)
    → ((n : ℕ) → env.fails n ≡ false)
    → d.client_msg_id ≡ some key
    → find (by_client_msg_id d.conversation_id d.sender_id d.client_msg_id) db.tables.messages
      ≡ some first
    → resolve env d (err duplicated_key, db) ≡ (ok (first, false), db)
unfolding resolve
resolve-taken env d db key first g keyed taken =
    let has : is_some d.client_msg_id ≡ true = ap is_some keyed in rw (has, g 3, taken)

-- A send under a key that the sender has used in this room writes nothing and is answered with the
-- message that was stored under it, whatever the new content is.
pub create_message-taken :
    (env : Env) (d : Draft) (db : Db) (key : String) (first : Message)
    → ((n : ℕ) → env.fails n ≡ false)
    → next_seq d.conversation_id db.tables ≢ 0
    → d.client_msg_id ≡ some key
    → find (by_client_msg_id d.conversation_id d.sender_id d.client_msg_id) db.tables.messages
      ≡ some first
    → ((create_message env d db).0 ≡ ok (first, false))
      × ((create_message env d db).1.tables ≡ db.tables)
unfolding create_message
create_message-taken env d db key first g h keyed taken =
    let r = write_message env d db in
    let e =
      commit_of-err env.commit db.tables duplicated_key r
        (write_message-taken env d db first g h taken) in
    let q = resolve-taken env d (record r.1 { tables = db.tables }) key first g keyed taken in
    (
      ap (λ (x : Result (Message × Bool) × Db). x.0) (ap (resolve env d) e ∙ q),
      ap (λ (x : Result (Message × Bool) × Db). x.1.tables) (ap (resolve env d) e ∙ q),
    )

-- A room that gave out a number gives out the next one too.
next_seq-stored :
    (env : Env) (d : Draft) (db : Db)
    → next_seq d.conversation_id db.tables ≢ 0
    → next_seq d.conversation_id (stored env d db) ≢ 0
next_seq-stored env d db h =
    let live = live_room d.conversation_id in
    let cs = db.tables.conversations in
    let once = find-update live live bumped (λ x. refl) cs in
    let twice = find-update live live bumped (λ x. refl) (update live bumped cs) in
    elim (Option-cases (find live cs)) [
      | inl gone ↦ absurd (h (ap returned (once ∙ ap (changed live bumped) gone)))
      | inr (c, there) ↦ λ z. grind (
        arith,
        twice ∙ ap (changed live bumped) (once ∙ ap (changed live bumped) there),
        find-holds live cs there,
        z,
      )
    ]

fresh_key :
    (t : Tables) (m : Message)
    → refused_insert t m ≡ none
    → find (by_client_msg_id m.conversation_id m.sender_id m.client_msg_id) t.messages ≡ none
fresh_key t m h = ground arith

finds_itself :
    (m : Message) (key : String)
    → m.client_msg_id ≡ some key
    → by_client_msg_id m.conversation_id m.sender_id m.client_msg_id m ≡ true
finds_itself m key keyed = ground (arith, ap (λ k. same_key k k) keyed, eq_refl key)

-- The key of a message that was stored finds that message.
find-stored :
    (env : Env) (d : Draft) (db : Db) (key : String)
    → d.client_msg_id ≡ some key
    → refused_insert db.tables (stored_message env d db) ≡ none
    → find
        (by_client_msg_id d.conversation_id d.sender_id d.client_msg_id)
        (stored env d db).messages
      ≡ some (stored_message env d db)
unfolding find
find-stored env d db key keyed fresh =
    let m = stored_message env d db in
    let p = by_client_msg_id d.conversation_id d.sender_id d.client_msg_id in
    find-append p db.tables.messages (m ∷ [])
    ∙ ap (λ o. or_else o (if p m then some m else none)) (fresh_key db.tables m fresh)
    ∙ ap (λ (b : Bool). if b then some m else none) (finds_itself m key keyed)

-- If none of its statements fails, a second try of a send that took effect, under the same key, in the same room, by the same
-- sender, is answered with the message of the first try and writes nothing: also if the answer of
-- the first try's commit was lost, and also if the second try carries another content.
pub create_message-retry :
    (env env' : Env) (d : Draft) (db : Db) (key content sender_name : String)
    → BothWritten env d db
    → ((n : ℕ) → env'.fails n ≡ false)
    → d.client_msg_id ≡ some key
    → let again =
        create_message env'
          (record d { content = content; sender_name = sender_name })
          (create_message env d db).1 in
      (again.0 ≡ ok (stored_message env d db, false)) × (again.1.tables ≡ stored env d db)
create_message-retry env env' d db key content sender_name (written, _, h, fresh) g keyed =
    let d' = record d { content = content; sender_name = sender_name } in
    let (answer, kept) =
      create_message-taken env' d' (create_message env d db).1 key (stored_message env d db) g
        (subst (λ t. next_seq d.conversation_id t ≢ 0) (sym written) (next_seq-stored env d db h))
        keyed
        (subst
          (λ (t : Tables).
            find (by_client_msg_id d.conversation_id d.sender_id d.client_msg_id) t.messages
            ≡ some (stored_message env d db))
          (sym written) (find-stored env d db key keyed fresh)) in
    (answer, kept ∙ written)
