-- ===== src/Database/Unread/Redelivery.antt =====
-- The counters after any deliveries: repeated, out of order, failing, or with a lost answer
-- (ApplyUnread of internal/database/unread.go, as the broker's consumer calls it).

use text.Mathlib.TextPositions.{eq_refl}
use go_chat_backend.Common.{
  ℕ, ◌+◌, ◌≡◌, refl, ap, ◌∙◌, Bool, true, false, not, ◌&&◌, ◌||◌, List, [], ◌∷◌, ◌++◌, arith, ◌==◌,
  if◌then◌else◌, inl, inr, Bool-cases,
}
use go_chat_backend.Common.Rows.{find}
use go_chat_backend.Common.Rows.Find.{find-append}
use go_chat_backend.Database.{Tables, Db, Env, refused}
use go_chat_backend.Database.Messages.{is_some}
use go_chat_backend.Database.Unread.{
  bump_all, receivers, has_claim, claim, bump_unread, apply_unread, is_claim, unread_consumer,
}
use go_chat_backend.Database.Unread.Once.{count_in, occurrences, count_in-bump_all}

-- The work of a call reaches the database and stays there.
abbrev pub takes_effect : Env → Bool
takes_effect env =
    not (env.fails 0) && (not (env.fails 1) && elim env.commit [ refused ↦ false | _ ↦ true ])

abbrev pub counted : ℕ → ℕ → ℕ → ℕ → ℕ → Tables → Tables
counted now message_id conversation_id sender_id seq t = record t {
  consumed_messages =
      t.consumed_messages
      ++ record { consumer = unread_consumer; message_id = message_id; consumed_at = now } ∷ [];
  unread_counters =
      bump_all now seq conversation_id (receivers conversation_id sender_id t) t.unread_counters;
}

-- A message that was claimed before changes nothing, and neither does a call that comes to nothing.
pub apply_unread-tables :
    (env : Env) (message_id conversation_id sender_id seq : ℕ) (db : Db)
    → (apply_unread env message_id conversation_id sender_id seq db).1.tables ≡ (
        if has_claim message_id db.tables || not (takes_effect env)
        then db.tables
        else counted env.now message_id conversation_id sender_id seq db.tables)
unfolding apply_unread claim bump_unread
apply_unread-tables env message_id conversation_id sender_id seq db = ground arith

-- One delivery of a message: how the database behaves at the time, and which message.
pub record Delivery : Type 0 where
  pub env : Env
  pub message_id : ℕ

-- The room, the sender and the number of each message are fixed once it is stored.
module _ (room_of sender_of seq_of : ℕ → ℕ) where
  unfoldable pub deliver_all : List Delivery → Db → Db
  deliver_all [] db = db
  deliver_all (d ∷ ds) db =
      deliver_all ds
        (apply_unread d.env d.message_id (room_of d.message_id) (sender_of d.message_id)
          (seq_of d.message_id) db).1

  -- What one message adds to a user's counter in a room.
  abbrev share : Tables → ℕ → ℕ → ℕ → ℕ
  share t c u m =
      if room_of m == c then occurrences u (receivers (room_of m) (sender_of m) t) else 0

  -- The specification: of the deliveries that take effect, the first of each message counts, unless
  -- the message was seen before.
  unfoldable pub unread_total : Tables → ℕ → ℕ → (ℕ → Bool) → List Delivery → ℕ
  unread_total t c u seen [] = 0
  unread_total t c u seen (d ∷ ds) =
      if seen d.message_id || not (takes_effect d.env)
      then unread_total t c u seen ds
      else share t c u d.message_id + unread_total t c u (λ k. d.message_id == k || seen k) ds

  pub has_claim-counted :
      (now m k c s q : ℕ) (t : Tables)
      → has_claim k (counted now m c s q t) ≡ (m == k || has_claim k t)
  unfolding find
  has_claim-counted now m k c s q t =
      ap is_some (find-append (is_claim k) t.consumed_messages _)
      ∙ ground (arith, eq_refl unread_consumer)

  -- The database after one delivery, told from what was seen before it.
  delivered :
      (d : Delivery) (db : Db) (seen : ℕ → Bool) (skip : Bool)
      → ((k : ℕ) → has_claim k db.tables ≡ seen k)
      → (seen d.message_id || not (takes_effect d.env)) ≡ skip
      → (apply_unread d.env d.message_id
          (room_of d.message_id)
          (sender_of d.message_id)
          (seq_of d.message_id)
          db).1.tables
        ≡ (if skip
            then db.tables
            else counted d.env.now d.message_id
                (room_of d.message_id)
                (sender_of d.message_id)
                (seq_of d.message_id)
                db.tables)
  delivered d db seen skip h e =
      apply_unread-tables d.env d.message_id (room_of d.message_id) (sender_of d.message_id)
        (seq_of d.message_id) db
      ∙ ap
          (λ b.
            if b
            then db.tables
            else counted d.env.now d.message_id (room_of d.message_id) (sender_of d.message_id)
                (seq_of d.message_id) db.tables)
          (ap (λ b. b || not (takes_effect d.env)) (h d.message_id) ∙ e)

  unread-deliver_all_from :
      (c u : ℕ) (seen : ℕ → Bool) (t : Tables) (ds : List Delivery) (db : Db)
      → ((k : ℕ) → has_claim k db.tables ≡ seen k)
      → db.tables.conversation_members ≡ t.conversation_members
      → count_in c u (deliver_all ds db).tables.unread_counters
        ≡ count_in c u db.tables.unread_counters + unread_total t c u seen ds
  unfolding deliver_all unread_total
  unread-deliver_all_from c u seen t [] db h e = omega arith
  unread-deliver_all_from c u seen t (d ∷ ds) db h e =
      let m = d.message_id in
      let db1 = (apply_unread d.env m (room_of m) (sender_of m) (seq_of m) db).1 in
      elim (Bool-cases (seen m || not (takes_effect d.env))) [
        | inl skip ↦
            let same : db1.tables ≡ db.tables = delivered d db seen true h skip in
            rw skip (
              unread-deliver_all_from c u seen t ds db1 (λ k. ap (has_claim k) same ∙ h k)
                (ap (λ (x : Tables). x.conversation_members) same ∙ e)
              ∙ ap (λ (x : Tables). count_in c u x.unread_counters + unread_total t c u seen ds)
                  same)
        | inr new ↦
            let now_counted = delivered d db seen false h new in
            let members : receivers (room_of m) (sender_of m) db.tables
                ≡ receivers (room_of m) (sender_of m) t =
              ap
                (λ ms. receivers (room_of m) (sender_of m) (record t { conversation_members = ms }))
                e in
            let ih =
              unread-deliver_all_from c u (λ k. m == k || seen k) t ds db1
                (λ k.
                  ap (has_claim k) now_counted
                  ∙ has_claim-counted d.env.now m k (room_of m) (sender_of m) (seq_of m) db.tables
                  ∙ ap (λ b. m == k || b) (h k))
                (ap (λ (x : Tables). x.conversation_members) now_counted ∙ e) in
            let bumped =
              ap (λ (x : Tables). count_in c u x.unread_counters) now_counted
              ∙ count_in-bump_all d.env.now (seq_of m) (room_of m) c u
                  (receivers (room_of m) (sender_of m) db.tables) db.tables.unread_counters
              ∙ ap
                  (λ us.
                    count_in c u db.tables.unread_counters
                    + (if room_of m == c then occurrences u us else 0))
                  members in
            rw new (omega (arith, ih, bumped))
      ]

  -- After any run of deliveries, repeated, failing or with lost answers, a user's counter in a room
  -- has grown by the specification's total: each message that was not seen before counts at the first
  -- delivery that takes effect and at no other, with one for each row that makes the user a member of
  -- the message's room, and with nothing for another room or for the message's sender.
  pub unread-deliver_all :
      (c u : ℕ) (ds : List Delivery) (db : Db)
      → count_in c u (deliver_all ds db).tables.unread_counters
        ≡ count_in c u db.tables.unread_counters
          + unread_total db.tables c u (λ k. has_claim k db.tables) ds
  unread-deliver_all c u ds db = unread-deliver_all_from c u _ db.tables ds db (λ k. refl) refl
