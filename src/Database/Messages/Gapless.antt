-- ===== src/Database/Messages/Gapless.antt =====
-- The sequence numbers of a room have no holes (internal/database/conversations.go).
use mathlib.Core.List.{map-append}
use go_chat_backend.Common.{
  ℕ, suc, ◌≡◌, ◌≢◌, refl, ap, ap₂, sym, subst, ◌∙◌, inl, inr, Bool, true, false, some, List, [],
  ◌∷◌, ◌++◌, map, arith, if◌then◌else◌, ◌==◌, ==→eq, Bool-cases, Option-cases, range_from,
  range_from-suc, append-nil,
}
use go_chat_backend.Common.Rows.{select, find, select-append}
use go_chat_backend.Common.Rows.Find.{
  Between, Between-update, find-update, find-holds, find_by_key, changed,
}
use go_chat_backend.Database.{Conversation, Message, Tables, Db, Env}
use go_chat_backend.Database.Messages.{Draft, create_message, live_room, bumped, returned, in_room}
use go_chat_backend.Database.Messages.Atomic.{
  next_seq, stored, stored_message, create_message_atomic,
}

abbrev pub room_id : Conversation → ℕ
room_id c = c.id

-- The counter of a room; a room that is not there counts as one that gave out nothing.
unfoldable pub last_seq_at : ℕ → Tables → ℕ
last_seq_at n t = returned (find (λ c. room_id c == n) t.conversations)

-- The messages of a room, in the order they were stored.
unfoldable pub room_messages : ℕ → Tables → List Message
room_messages n t = select (in_room n) t.messages

abbrev pub seq_of : Message → ℕ
seq_of m = m.seq

-- The messages of each room carry 1, 2, 3 and so on up to the counter of the room, in this order.
pub record IsGapless (t : Tables) (ids : ℕ) : Type 0 where
  pub rooms : Between room_id 0 t.conversations ids
  pub seqs : (n : ℕ) → map seq_of (room_messages n t) ≡ range_from 1 (last_seq_at n t)

find_live :
    (t : Tables) (n ids : ℕ) (c : Conversation)
    → Between room_id 0 t.conversations ids
    → find (live_room n) t.conversations ≡ some c
    → find (λ c. room_id c == n) t.conversations ≡ some c
find_live t n ids c b =
    find_by_key room_id (live_room n) n 0 t.conversations ids (λ y h. ground arith) b

-- A number is given out if there is a live room, and is the one after the room's counter.
pub next_seq-last :
    (t : Tables) (n ids : ℕ)
    → Between room_id 0 t.conversations ids
    → next_seq n t ≢ 0
    → (c : Conversation) × (find (λ c. room_id c == n) t.conversations ≡ some c)
      × (live_room n c ≡ true)
      × (next_seq n t ≡ suc (last_seq_at n t))
unfolding last_seq_at
next_seq-last t n ids b h = elim (Option-cases (find (live_room n) t.conversations)) [
  | inl gone ↦ absurd (
      h (
        ap returned (
          find-update (live_room n) (live_room n) bumped (λ x. refl) t.conversations
          ∙ ap (changed (live_room n) bumped) gone)))
  | inr (c, there) ↦
      let live : live_room n c ≡ true = find-holds (live_room n) t.conversations there in
      let row : find (λ c. room_id c == n) t.conversations ≡ some c = find_live t n ids c b there in
      let next : next_seq n t ≡ suc c.last_seq =
        ap returned (
          find-update (live_room n) (live_room n) bumped (λ x. refl) t.conversations
          ∙ ap (changed (live_room n) bumped) there)
        ∙ ap (λ k. returned (some (if k then bumped c else c))) live
        ∙ omega arith in
      (c, row, live, next ∙ ap suc (sym (ap returned row)))
]

last_seq_at-stored :
    (env : Env) (d : Draft) (db : Db) (n ids : ℕ)
    → Between room_id 0 db.tables.conversations ids
    → next_seq d.conversation_id db.tables ≢ 0
    → last_seq_at n (stored env d db)
      ≡ (if d.conversation_id == n then suc (last_seq_at n db.tables) else last_seq_at n db.tables)
unfolding last_seq_at
last_seq_at-stored env d db n ids b h =
    let after =
      find-update (λ c. room_id c == n) (live_room d.conversation_id) bumped (λ x. refl)
        db.tables.conversations in
    ap returned after ∙ elim (Bool-cases (d.conversation_id == n)) [
      | inl same ↦
          let (c, row, live, next) = next_seq-last db.tables d.conversation_id ids b h in
          let row' =
            subst (λ k. find (λ c. room_id c == k) db.tables.conversations ≡ some c)
              (==→eq d.conversation_id n same) row in
          rw (same, row', live) (omega arith)
      | inr other ↦ elim (Option-cases (find (λ c. room_id c == n) db.tables.conversations)) [
        | inl gone ↦ rw (other, gone)
        | inr (c, row) ↦
            let at = find-holds (λ c. room_id c == n) db.tables.conversations row in
            let dead : live_room d.conversation_id c ≡ false = ground arith in rw (other, row, dead)
      ]
    ]

room_messages-stored :
    (env : Env) (d : Draft) (db : Db) (n : ℕ)
    → room_messages n (stored env d db)
      ≡ room_messages n db.tables
        ++ (if d.conversation_id == n then stored_message env d db ∷ [] else [])
unfolding room_messages select
room_messages-stored env d db n =
    select-append (in_room n) db.tables.messages (stored_message env d db ∷ [])

-- One more number at the end of a run of numbers.
one_more :
    (before : List Message) (m : Message) (k : ℕ)
    → map seq_of before ≡ range_from 1 k
    → m.seq ≡ suc k
    → map seq_of (before ++ m ∷ []) ≡ range_from 1 (suc k)
one_more before m k h e =
    map-append seq_of before (m ∷ [])
    ∙ ap₂ (λ (xs ys : List ℕ). xs ++ ys) h (ap (λ j. j ∷ []) (e ∙ omega arith))
    ∙ sym (range_from-suc 1 k)

stored-seqs :
    (env : Env) (d : Draft) (db : Db) (ids n : ℕ) (c : Bool)
    → (d.conversation_id == n) ≡ c
    → next_seq d.conversation_id db.tables ≢ 0
    → IsGapless db.tables ids
    → map seq_of (room_messages n db.tables ++ (if c then stored_message env d db ∷ [] else []))
      ≡ range_from 1 (if c then suc (last_seq_at n db.tables) else last_seq_at n db.tables)
stored-seqs env d db ids n false e h g = ap (map seq_of) (append-nil _) ∙ g.seqs n
stored-seqs env d db ids n true e h g =
    let (_, _, _, next) = next_seq-last db.tables d.conversation_id ids g.rooms h in
    one_more (room_messages n db.tables) (stored_message env d db) (last_seq_at n db.tables)
      (g.seqs n) (next ∙ ap (λ k. suc (last_seq_at k db.tables)) (==→eq d.conversation_id n e))

pub stored-IsGapless :
    (env : Env) (d : Draft) (db : Db) (ids : ℕ)
    → next_seq d.conversation_id db.tables ≢ 0
    → IsGapless db.tables ids
    → IsGapless (stored env d db) ids
stored-IsGapless env d db ids h g = record {
  rooms =
      Between-update room_id (live_room d.conversation_id) bumped (λ x. refl) 0
        db.tables.conversations ids g.rooms;
  seqs = λ n.
      ap (map seq_of) (room_messages-stored env d db n)
      ∙ stored-seqs env d db ids n (d.conversation_id == n) refl h g
      ∙ ap (range_from 1) (sym (last_seq_at-stored env d db n ids g.rooms h));
}

-- Whatever fails on the way, and whether or not the send is a repeat, a send leaves every room with
-- the numbers 1, 2, 3 and so on up to its counter, with no hole and no repeat.
pub create_message-IsGapless :
    (env : Env) (d : Draft) (db : Db) (ids : ℕ)
    → IsGapless db.tables ids
    → IsGapless (create_message env d db).1.tables ids
create_message-IsGapless env d db ids g = elim (create_message_atomic env d db) [
  | inl (kept, _) ↦ subst (λ t. IsGapless t ids) (sym kept) g
  | inr (written, _, h, _) ↦
      subst (λ t. IsGapless t ids) (sym written) (stored-IsGapless env d db ids h g)
]
