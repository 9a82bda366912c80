-- ===== src/Server/Conversations/Sending.antt =====
-- Sending through the API (SendMessageHandler of internal/server/conversations.go).
use Prim.Native.String.{String}
use go_chat_backend.Common.{
  ℕ, ◌≡◌, ◌≢◌, refl, ap, subst, ◌∙◌, ◌⊎◌, inl, inr, Bool, true, false, Option, none, some, arith,
  ◌==◌, Bool-cases, sym, if◌then◌else◌,
}
use go_chat_backend.Database.{Message, Db, Env, Result, ok, err, failed, lost}
use go_chat_backend.Database.Messages.{create_message}
use go_chat_backend.Database.Messages.Atomic.{stored, stored_message, create_message_atomic}
use go_chat_backend.Database.Rooms.{ensure_member, membership}
use go_chat_backend.Server.Conversations.{
  Param, absent, unreadable, number, Response, Weather, Gate, refused, entered, after_ensure,
  member_only, inside, SendRequest, draft_of, sent, send_bound, send_message_handler,
}

ensure_member-db : (env : Env) (room user : ℕ) (db : Db) → (ensure_member env room user db).1 ≡ db
unfolding ensure_member
ensure_member-db env room user db = ground arith

after_ensure-db : (id : ℕ) (r : Result (Unit {0}) × Db) → (after_ensure id r).1 ≡ r.1
after_ensure-db id (ok t, db) = refl
after_ensure-db id (err e, db) = ground arith

member_only-db : (env : Env) (id : Param) (user : ℕ) (db : Db) → (member_only env id user db).1 ≡ db
unfolding member_only
member_only-db env absent user db = refl
member_only-db env unreadable user db = refl
member_only-db env (number id) user db = elim (Bool-cases (id == 0)) [
  | inl zero_ ↦ rw zero_ refl
  | inr some_ ↦
      rw some_ (after_ensure-db id (ensure_member env id user db) ∙ ensure_member-db env id user db)
]

-- Nothing was written, and nobody is told of a new message.
abbrev pub NothingSent : Db → Response Message × Db → Type 0
NothingSent db r =
    (r.1.tables ≡ db.tables) × ((m : Message) → r.0 ≢ record { status = 201; body = some m })

-- The room of the path is one that the user is a member of.
abbrev pub IsMember : Param → ℕ → Db → ℕ → Type 0
IsMember id user db room = (id ≡ number room) × (room ≢ 0) × (membership room user db.tables ≢ 0)

-- The message and its outbox row were written to the room of the path, of which the sender is a
-- member; 201 says so, unless the commit's answer was lost.
abbrev pub MessageSent :
    Weather → Param → ℕ → String → Option SendRequest → Db → Response Message × Db → Type 0
MessageSent w id user username req db r =
    (room : ℕ) × (q : SendRequest) × IsMember id user db room
    × (req ≡ some q)
    × (r.1.tables ≡ stored w.work (draft_of room user username q) db)
    × ((r.0 ≡ record {
      status = 201;
      body = some (stored_message w.work (draft_of room user username q) db);
    })
        ⊎ ((w.work.commit ≡ lost) × (r.0 ≡ record { status = 500; body = none })))

ensure_member-ok :
    (env : Env) (room user : ℕ) (db : Db) (t : Unit {0})
    → (ensure_member env room user db).0 ≡ ok t
    → membership room user db.tables ≢ 0
unfolding ensure_member
ensure_member-ok env room user db t h = ground (arith, h)

after_ensure-entered :
    (id room : ℕ) (r : Result (Unit {0}) × Db)
    → (after_ensure id r).0 ≡ entered room
    → (id ≡ room) × ((t : Unit {0}) × (r.0 ≡ ok t))
after_ensure-entered id room (ok t, db) h = (cc, (t, refl))
after_ensure-entered id room (err e, db) h = absurd (ground (arith, h))

-- Whoever is let in is a member.
member_only-entered :
    (env : Env) (id : Param) (user : ℕ) (db : Db) (room : ℕ)
    → (member_only env id user db).0 ≡ entered room
    → IsMember id user db room
unfolding member_only
member_only-entered env absent user db room h = absurd (cc)
member_only-entered env unreadable user db room h = absurd (cc)
member_only-entered env (number id) user db room h =
    let asked = let_in (id == 0) room _ _ h in
    let e = after_ensure-entered id room (ensure_member env id user db) asked.1 in
    let m = ensure_member-ok env id user db e.1.0 e.1.1 in
    (
      ap number e.0,
      ground (arith, asked.0, e.0),
      subst (λ r. membership r user db.tables ≢ 0) e.0 m,
    )
  where
    let_in :
        (b : Bool) (room : ℕ) (db : Db) (g : Gate × Db)
        → (if b then (refused 404, db) else g).0 ≡ entered room
        → (b ≡ false) × (g.0 ≡ entered room)
    let_in true room db g h = absurd (cc)
    let_in false room db g h = (refl, h)

sent-nothing :
    (db : Db) (r : Result (Message × Bool) × Db)
    → r.1.tables ≡ db.tables
    → ((m : Message) → r.0 ≢ ok (m, true))
    → NothingSent db (sent r)
sent-nothing db (err e, db') same never = (same, λ m e. cc)
sent-nothing db (ok (m, true), db') same never = absurd (never m refl)
sent-nothing db (ok (m, false), db') same never =
    (same, λ n e. let z : 200 ≡ 201 = ap (λ (r : Response Message). r.status) e in omega (arith, z))

sent-ok :
    (db : Db) (m : Message) (r : Result (Message × Bool) × Db)
    → r.0 ≡ ok (m, true)
    → (sent r).0 ≡ record { status = 201; body = some m }
sent-ok db m (err e, db') h = cc
sent-ok db m (ok (n, b), db') h = ground (arith, h)

sent-failed :
    (r : Result (Message × Bool) × Db)
    → r.0 ≡ err failed
    → (sent r).0 ≡ record { status = 500; body = none }
sent-failed (err e, db') h = refl
sent-failed (ok x, db') h = cc

sent-db : (r : Result (Message × Bool) × Db) → (sent r).1 ≡ r.1
sent-db (err e, db') = refl
sent-db (ok (m, b), db') = refl

send_bound-outcome :
    (w : Weather) (id : Param) (user : ℕ) (username : String) (req : Option SendRequest) (room : ℕ)
    (db : Db)
    → IsMember id user db room
    → NothingSent db (send_bound w.work user username req room db)
      ⊎ MessageSent w id user username req db (send_bound w.work user username req room db)
unfolding send_bound
send_bound-outcome w id user username none room db belongs = inl (refl, λ m e. cc)
send_bound-outcome w id user username (some q) room db belongs =
    let d = draft_of room user username q in
    let r = create_message w.work d db in
    let kept = sent-db r in
    elim (create_message_atomic w.work d db) [
      | inl (same, never) ↦ inl (sent-nothing db r same never)
      | inr (written, answer, _, _) ↦ inr (
        room,
        q,
        belongs,
        refl,
        ap (λ (x : Db). x.tables) kept ∙ written,
        elim answer [
          | inl told ↦ inl (sent-ok db (stored_message w.work d db) r told)
          | inr (gone, failed_) ↦ inr (gone, sent-failed r failed_)
        ],
      )
    ]

inside-outcome :
    (w : Weather) (id : Param) (user : ℕ) (username : String) (req : Option SendRequest)
    (g : Gate × Db)
    → ((room : ℕ) → g.0 ≡ entered room → IsMember id user g.1 room)
    → NothingSent g.1 (inside (send_bound w.work user username req) g)
      ⊎ MessageSent w id user username req g.1 (inside (send_bound w.work user username req) g)
inside-outcome w id user username req (refused status, db) h = inl (refl, λ m e. cc)
inside-outcome w id user username req (entered room, db) h =
    send_bound-outcome w id user username req room db (h room refl)

-- Whatever the request is, either nothing is written and the answer is not 201, or one message and
-- its outbox row are written, from a body that was read, to the room that the path names and that the
-- sender is a member of; the answer is then 201 with that message, or 500 if the commit's answer was
-- lost.
pub send_message_handler-outcome :
    (w : Weather) (id : Param) (req : Option SendRequest) (user : ℕ) (username : String) (db : Db)
    → NothingSent db (send_message_handler w id req user username db)
      ⊎ MessageSent w id user username req db (send_message_handler w id req user username db)
unfolding send_message_handler
send_message_handler-outcome w id req user username db =
    let gate = member_only w.member id user db in
    let same = member_only-db w.member id user db in
    subst
      (λ x.
        NothingSent x (inside (send_bound w.work user username req) gate)
        ⊎ MessageSent w id user username req x (inside (send_bound w.work user username req) gate))
      same
      (inside-outcome w id user username req gate (λ room e.
        subst (λ x. IsMember id user x room) (sym same)
          (member_only-entered w.member id user db room e)))

outside :
    (env : Env) (id user : ℕ) (db : Db)
    → env.fails 0 ≡ false
    → membership id user db.tables ≡ 0
    → member_only env (number id) user db ≡ (refused 404, db)
unfolding member_only ensure_member
outside env id user db g out = elim (Bool-cases (id == 0)) [
  | inl zero_ ↦ rw zero_ refl
  | inr some_ ↦ rw (some_, g, out) refl
]

-- Somebody who is not a member of the room, or for whom the room is deleted or does not exist, gets
-- the same 404, and nothing is written.
pub send_message_handler-outsider :
    (w : Weather) (id : ℕ) (req : Option SendRequest) (user : ℕ) (username : String) (db : Db)
    → w.member.fails 0 ≡ false
    → membership id user db.tables ≡ 0
    → send_message_handler w (number id) req user username db
      ≡ (record { status = 404; body = none }, db)
unfolding send_message_handler
send_message_handler-outsider w id req user username db g out =
    ap (inside (send_bound w.work user username req)) (outside w.member id user db g out)
