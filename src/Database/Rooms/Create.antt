-- ===== src/Database/Rooms/Create.antt =====
-- Making a room (CreateConversation of internal/database/conversations.go).
use Prim.Native.String.{String}
use go_chat_backend.Common.{
  ℕ, ◌+◌, ◌≡◌, ◌≢◌, refl, ap, ◌∙◌, ◌⊎◌, inl, inr, Bool, true, false, ◌||◌, none, some, List, [],
  ◌∷◌, ◌++◌, arith, ◌==◌, if◌then◌else◌, Bool-cases, length,
}
use go_chat_backend.Common.Rows.{select, find, select-append}
use go_chat_backend.Common.Rows.Find.{find-append}
use go_chat_backend.Database.{
  Conversation, Tables, Db, Env, Commit, done, refused, lost, Result, ok, err, failed,
  user_not_found, Error, commit_of, continue, statement, pure, ◌>>◌,
}
use go_chat_backend.Database.Messages.{live_room}
use go_chat_backend.Database.Messages.Atomic.{commit_of-err}
use go_chat_backend.Database.OutboxTable.{is_in}
use go_chat_backend.Database.Unread.Once.{occurrences}
use go_chat_backend.Database.Rooms.{
  unseen, all_members, member_rows, insert_conversation, insert_members, write_conversation,
  create_conversation, count_users, is_member, membership,
}

occurrences-unseen :
    (u : ℕ) (seen ids : List ℕ)
    → occurrences u (unseen seen ids) ≡ (if is_in seen u then 0 else if is_in ids u then 1 else 0)
unfolding occurrences unseen
occurrences-unseen u seen [] = ground arith
occurrences-unseen u seen (id ∷ ids) =
    split (is_in seen id) refl (occurrences-unseen u seen ids)
      (occurrences-unseen u (id ∷ seen) ids)
  where
    split :
        (b : Bool)
        → is_in seen id ≡ b
        → occurrences u (unseen seen ids)
          ≡ (if is_in seen u then 0 else if is_in ids u then 1 else 0)
        → occurrences u (unseen (id ∷ seen) ids)
          ≡ (if is_in (id ∷ seen) u then 0 else if is_in ids u then 1 else 0)
        → occurrences u (elim b [ true ↦ unseen seen ids | false ↦ id ∷ unseen (id ∷ seen) ids ])
          ≡ (if is_in seen u then 0 else if is_in (id ∷ ids) u then 1 else 0)
    split true old skip keep = ground (arith, skip, old)
    split false new skip keep = ground (arith, keep, new)

-- The creator and everybody who is named stand in the list once, and nobody else.
occurrences-all_members :
    (u creator_id : ℕ) (member_ids : List ℕ)
    → occurrences u (all_members creator_id member_ids)
      ≡ (if u == creator_id || is_in member_ids u then 1 else 0)
unfolding occurrences all_members
occurrences-all_members u creator_id member_ids =
    ground (arith, occurrences-unseen u (creator_id ∷ []) member_ids)

abbrev pub new_room : String → ℕ → Db → Conversation
new_room title creator_id db = record {
  id = db.serials.conversations;
  title = title;
  created_by_id = creator_id;
  last_seq = 0;
  deleted_at = none;
}

-- The room and a row for each member.
abbrev pub founded : Env → String → ℕ → List ℕ → Db → Tables
founded env title creator_id ids db = record db.tables {
  conversations = db.tables.conversations ++ new_room title creator_id db ∷ [];
  conversation_members =
      db.tables.conversation_members
      ++ member_rows env.now db.serials.conversation_members db.serials.conversations ids;
}

-- The transaction ends in an error, or gets to its end, and then each of the ids has a user.
record Founds (env : Env) (title : String) (creator_id : ℕ) (ids : List ℕ) (db : Db)
    (r : Result Conversation × Db) : Type 0 where
  tables : r.1.tables ≡ founded env title creator_id ids db
  room : r.0 ≡ ok (new_room title creator_id db)
  users : count_users ids db.tables ≡ length ids

write_conversation-Founds :
    (env : Env) (title : String) (creator_id : ℕ) (ids : List ℕ) (db : Db)
    → ((e : Error) × ((write_conversation env title creator_id ids db).0 ≡ err e))
      ⊎ Founds env title creator_id ids db (write_conversation env title creator_id ids db)
unfolding write_conversation insert_conversation insert_members
write_conversation-Founds env title creator_id ids db = elim (Bool-cases (env.fails 0)) [
  | inl f0 ↦ inl (failed, rw f0)
  | inr g0 ↦ elim (Bool-cases (count_users ids db.tables == length ids)) [
    | inr missing ↦ inl (user_not_found, rw (g0, missing))
    | inl all ↦ elim (Bool-cases (env.fails 1)) [
      | inl f1 ↦ inl (failed, rw (g0, all, f1))
      | inr g1 ↦ elim (Bool-cases (env.fails 2)) [
        | inl f2 ↦ inl (failed, rw (g0, all, g1, f2))
        | inr g2 ↦ inr (record {
          tables = rw (g0, all, g1, g2);
          room = rw (g0, all, g1, g2);
          users = ground arith;
        })
      ]
    ]
  ]
]

-- What a call can come to: nothing, with an error; or the whole room, whether or not its caller
-- gets to know.
abbrev pub NothingMade : Db → Result Conversation × Db → Type 0
NothingMade db r = (r.1.tables ≡ db.tables) × ((c : Conversation) → r.0 ≢ ok c)

abbrev pub RoomMade : Env → String → ℕ → List ℕ → Db → Result Conversation × Db → Type 0
RoomMade env title creator_id member_ids db r =
    let ids = all_members creator_id member_ids in
    (r.1.tables ≡ founded env title creator_id ids db)
    × ((r.0 ≡ ok (new_room title creator_id db)) ⊎ (r.0 ≡ err failed))
    × (count_users ids db.tables ≡ length ids)

abbrev reload : Env → Result Conversation × Db → Result Conversation × Db
reload env r = continue (λ conv. statement env 3 >> pure conv) r

reload-err :
    (env : Env) (db : Db) (t : Tables) (e : Error) (r : Result Conversation × Db)
    → t ≡ db.tables
    → r.0 ≡ err e
    → NothingMade db (reload env (commit_of env.commit t r))
reload-err env db t e r same h = rw (commit_of-err env.commit t e r h) (same, λ c k. cc)

reload-ok :
    (env : Env) (title : String) (creator_id : ℕ) (member_ids : List ℕ) (db : Db) (c : Commit)
    (r : Result Conversation × Db)
    → Founds env title creator_id (all_members creator_id member_ids) db r
    → NothingMade db (reload env (commit_of c db.tables r))
      ⊎ RoomMade env title creator_id member_ids db (reload env (commit_of c db.tables r))
reload-ok env title creator_id member_ids db c (err e, db') f = cc (f.room)
reload-ok env title creator_id member_ids db done (ok a, db') f = elim (Bool-cases (env.fails 3)) [
  | inl f3 ↦ inr (rw f3 (f.tables, inr refl, f.users))
  | inr g3 ↦ inr (rw g3 (f.tables, inl f.room, f.users))
]
reload-ok env title creator_id member_ids db refused (ok a, db') f = inl (refl, λ b k. cc)
reload-ok env title creator_id member_ids db lost (ok a, db') f = inr (f.tables, inr refl, f.users)

-- However a call ends, either nothing is written and the caller gets an error, or the room is written
-- with a row for the creator and for each named user, all of whom exist, and the caller gets the
-- room, or an error if the answer of the commit or the reading back of the room failed.
pub create_conversation_atomic :
    (env : Env) (title : String) (creator_id : ℕ) (member_ids : List ℕ) (db : Db)
    → NothingMade db (create_conversation env title creator_id member_ids db)
      ⊎ RoomMade env title creator_id member_ids db
          (create_conversation env title creator_id member_ids db)
unfolding create_conversation
create_conversation_atomic env title creator_id member_ids db =
    let ids = all_members creator_id member_ids in
    let r = write_conversation env title creator_id ids db in
    elim (write_conversation-Founds env title creator_id ids db) [
      | inl (e, h) ↦ inl (reload-err env db db.tables e r refl h)
      | inr f ↦ reload-ok env title creator_id member_ids db env.commit r f
    ]

select-member_rows :
    (now id room u : ℕ) (ids : List ℕ)
    → length (select (is_member room u) (member_rows now id room ids)) ≡ occurrences u ids
unfolding select member_rows occurrences
select-member_rows now id room u [] = refl
select-member_rows now id room u (v ∷ ids) =
    ground (arith, select-member_rows now (id + 1) room u ids)

-- No row uses this id of a room.
pub record IsUnused (id : ℕ) (t : Tables) : Type 0 where
  pub room : find (live_room id) t.conversations ≡ none
  pub members : (u : ℕ) → select (is_member id u) t.conversation_members ≡ []

founded-membership :
    (env : Env) (title : String) (creator_id u : ℕ) (ids : List ℕ) (db : Db)
    → IsUnused db.serials.conversations db.tables
    → membership db.serials.conversations u (founded env title creator_id ids db)
      ≡ occurrences u ids
unfolding find
founded-membership env title creator_id u ids db unused =
    let n = db.serials.conversations in
    let conv = new_room title creator_id db in
    let rows = member_rows env.now db.serials.conversation_members n ids in
    let itself : live_room n conv ≡ true = ground arith in
    let there : find (live_room n) (db.tables.conversations ++ conv ∷ []) ≡ some conv =
      find-append (live_room n) db.tables.conversations (conv ∷ [])
      ∙ rw (unused.room, itself) refl in
    let counted : select (is_member n u) (db.tables.conversation_members ++ rows)
        ≡ select (is_member n u) rows =
      select-append (is_member n u) db.tables.conversation_members rows
      ∙ ap (λ ms. ms ++ select (is_member n u) rows) (unused.members u) in
    rw (there, counted) (select-member_rows env.now db.serials.conversation_members n u ids)

-- After a call that answers with a room, the creator and the named users have exactly one row each in
-- it, also if they were named more than once, and nobody else has one.
pub create_conversation-membership :
    (env : Env) (title : String) (creator_id u : ℕ) (member_ids : List ℕ) (db : Db)
    (conv : Conversation)
    → IsUnused db.serials.conversations db.tables
    → (create_conversation env title creator_id member_ids db).0 ≡ ok conv
    → membership conv.id u (create_conversation env title creator_id member_ids db).1.tables
      ≡ (if u == creator_id || is_in member_ids u then 1 else 0)
create_conversation-membership env title creator_id u member_ids db conv unused h =
    elim (create_conversation_atomic env title creator_id member_ids db) [
      | inl (_, never) ↦ absurd (never conv h)
      | inr (made, answer, _) ↦
          let r = create_conversation env title creator_id member_ids db in
          let fresh : conv.id ≡ db.serials.conversations = elim answer [
            | inl e ↦ cc (e, h)
            | inr e ↦ cc (e, h)
          ] in
          ap (λ t. membership conv.id u t) made
          ∙ ap
              (λ i.
                membership i u
                  (founded env title creator_id (all_members creator_id member_ids) db))
              fresh
          ∙ founded-membership env title creator_id u (all_members creator_id member_ids) db unused
          ∙ occurrences-all_members u creator_id member_ids
    ]
