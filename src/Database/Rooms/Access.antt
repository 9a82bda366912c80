-- ===== src/Database/Rooms/Access.antt =====
-- Adding a member, and who gets in (AddMember and EnsureMember of internal/database/conversations.go).
use go_chat_backend.Common.{
  ℕ, ◌+◌, ◌≡◌, refl, ap, sym, ◌∙◌, inl, inr, Bool, true, false, ◌&&◌, List, [], ◌∷◌, ◌++◌, arith,
  ◌==◌, ==_refl, if◌then◌else◌, Bool-cases, Option-cases, length,
}
use go_chat_backend.Common.Rows.{select, find}
use go_chat_backend.Common.Rows.Find.{find-append}
use go_chat_backend.Database.{
  ConversationMember, Tables, Db, Env, Result, ok, err, already_member, conversation_not_found,
}
use go_chat_backend.Database.Messages.{is_some, live_room}
use go_chat_backend.Database.Rooms.{
  insert_members, member_rows, is_member, membership, ensure_member, add_member,
}

-- One more row.
abbrev pub with_member : Env → ℕ → ℕ → Db → Tables
with_member env room u db = record db.tables {
  conversation_members =
      db.tables.conversation_members
      ++ record {
        id = db.serials.conversation_members;
        conversation_id = room;
        user_id = u;
        created_at = env.now;
      }
        ∷ [];
}

add_member-ok :
    (env : Env) (room u : ℕ) (db : Db)
    → (add_member env room u db).0 ≡ ok tt
    → (add_member env room u db).1.tables ≡ with_member env room u db
unfolding add_member insert_members member_rows
add_member-ok env room u db h = ground arith

find-with_member :
    (env : Env) (room u : ℕ) (db : Db)
    → is_some (find (is_member room u) (with_member env room u db).conversation_members) ≡ true
unfolding find
find-with_member env room u db =
    let rows = db.tables.conversation_members in
    elim (Option-cases (find (is_member room u) rows)) [
      | inl gone ↦ rw (find-append (is_member room u) rows _, gone, ==_refl room, ==_refl u) refl
      | inr (m, there) ↦ rw (find-append (is_member room u) rows _, there) refl
    ]

length-select_one :
    (r v : ℕ) (rows : List ConversationMember) (m : ConversationMember)
    → length (select (is_member r v) (rows ++ m ∷ []))
      ≡ length (select (is_member r v) rows) + (if is_member r v m then 1 else 0)
unfolding select
length-select_one r v [] m = ground arith
length-select_one r v (row ∷ rows) m = ground (arith, length-select_one r v rows m)

ensure_member-answer :
    (env : Env) (r v : ℕ) (db : Db)
    → env.fails 0 ≡ false
    → (ensure_member env r v db).0
      ≡ (if membership r v db.tables == 0 then err conversation_not_found else ok tt)
unfolding ensure_member
ensure_member-answer env r v db g = elim (Bool-cases (membership r v db.tables == 0)) [
  | inl out ↦ rw (g, out) refl
  | inr in_ ↦ rw (g, in_) refl
]

let_in :
    (is_live is_new : Bool) (k : ℕ)
    → ◌≡◌ {A = Result (Unit {0})}
        (if (if is_live then k + (if is_new then 1 else 0) else 0) == 0
          then err conversation_not_found
          else ok tt)
        (if is_live && is_new
          then ok tt
          else if (if is_live then k else 0) == 0
          then err conversation_not_found
          else ok tt)
let_in is_live is_new k = ground arith

-- Adding a member lets exactly that user into exactly that room, provided that the room is not
-- deleted; the access of everybody else, and to every other room, is what it was before.
pub add_member-ensure_member :
    (env env' : Env) (room u r v : ℕ) (db : Db)
    → env'.fails 0 ≡ false
    → (add_member env room u db).0 ≡ ok tt
    → (ensure_member env' r v (add_member env room u db).1).0 ≡ (
        if is_some (find (live_room r) db.tables.conversations) && (room == r && u == v)
        then ok tt
        else (ensure_member env' r v db).0)
add_member-ensure_member env env' room u r v db g h =
    let is_live = is_some (find (live_room r) db.tables.conversations) in
    let rows = db.tables.conversation_members in
    ensure_member-answer env' r v (add_member env room u db).1 g
    ∙ ap (λ (t : Tables). if membership r v t == 0 then err conversation_not_found else ok tt)
        (add_member-ok env room u db h)
    ∙ ap (λ (k : ℕ). if (if is_live then k else 0) == 0 then err conversation_not_found else ok tt)
        (length-select_one r v rows _)
    ∙ let_in is_live (room == r && u == v) (length (select (is_member r v) rows))
    ∙ ap (λ (x : Result (Unit {0})). if is_live && (room == r && u == v) then ok tt else x)
        (sym (ensure_member-answer env' r v db g))

taken :
    (env : Env) (room u : ℕ) (db : Db)
    → env.fails 0 ≡ false
    → is_some (find (is_member room u) db.tables.conversation_members) ≡ true
    → ((add_member env room u db).0 ≡ err already_member)
      × ((add_member env room u db).1.tables ≡ db.tables)
unfolding add_member
taken env room u db g t = rw (g, t) (refl, refl)

-- Adding the same user to the same room again is refused as a repeat, and writes nothing.
pub add_member-again :
    (env env' : Env) (room u : ℕ) (db : Db)
    → env'.fails 0 ≡ false
    → (add_member env room u db).0 ≡ ok tt
    → let again = add_member env' room u (add_member env room u db).1 in
      (again.0 ≡ err already_member) × (again.1.tables ≡ with_member env room u db)
add_member-again env env' room u db g h =
    let e = add_member-ok env room u db h in
    let known : is_some
          (find (is_member room u) (add_member env room u db).1.tables.conversation_members)
        ≡ true =
      ap (λ (t : Tables). is_some (find (is_member room u) t.conversation_members)) e
      ∙ find-with_member env room u db in
    let r = taken env' room u (add_member env room u db).1 g known in (r.0, r.1 ∙ e)
