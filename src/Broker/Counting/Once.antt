-- ===== src/Broker/Counting/Once.antt =====
-- From the stream to the counters in a cluster: each event counts once, however its message is
-- delivered (internal/broker/consume.go over internal/database/unread.go).
use go_chat_backend.Common.{
  ℕ, ◌≡◌, refl, ap, sym, subst, ◌∙◌, Bool, true, false, not, ◌&&◌, ◌||◌, Option, none, some, List,
  [], ◌∷◌, ◌++◌, inl, inr, Bool-cases, arith, ◌⊎◌, if◌then◌else◌,
}
use go_chat_backend.Event.{MessageCreated}
use go_chat_backend.Database.{Tables, Db, Result, ok, err}
use go_chat_backend.Database.Unread.{has_claim}
use go_chat_backend.Outbox.Local.{apply_event}
use go_chat_backend.Outbox.Local.Counted.{
  Counted, Counted-refl, Counted-trans, AllEvents, AllEvents-append, AllEvents-imp,
  counted_by-AllEvents, counted_by, apply-Counted, apply-claimed,
}
use go_chat_backend.Broker.Publish.{Envelope}
use go_chat_backend.Broker.Fanout.{decode_envelope}
use go_chat_backend.Broker.Consume.{
  Weather, Verdict, acked, ack_lost, terminated, term_lost, no_answer, nakked, Broker, dead_letter,
  handle_unread,
}
use go_chat_backend.Broker.Counting.{
  Delivery, Consumer, with_answer, consume_decoded, handle_delivery, consume_one, consume_all,
}

abbrev pub is_acked : Verdict → Bool
is_acked acked = true
is_acked ack_lost = false
is_acked terminated = false
is_acked term_lost = false
is_acked no_answer = false
is_acked (nakked delay) = false

-- The event of the message has been counted.
abbrev pub is_claimed : Tables → Option Envelope → Bool
is_claimed t none = false
is_claimed t (some e) = has_claim e.event.message_id t

-- The event of these bytes.
abbrev pub IsOf : Option Envelope → MessageCreated → Type 0
IsOf none ev = ⊥
IsOf (some e) ev = e.event ≡ ev

-- The event of a message that was delivered.
abbrev pub IsDelivered : List Delivery → MessageCreated → Type 0
IsDelivered [] ev = ⊥
IsDelivered (d ∷ ds) ev = IsOf (decode_envelope d.payload) ev ⊎ IsDelivered ds ev

-- Only work that has succeeded is acknowledged.
handle_unread-acked :
    (w : Weather) (n : ℕ) (b : Broker)
    → is_acked (handle_unread w n b).0 ≡ true
    → (w.has_metadata && w.parses && w.applies) ≡ true
unfolding handle_unread dead_letter
handle_unread-acked w n b h = ground arith

-- What one delivery did to the tables, and that its message is counted if it was acknowledged.
record Worked (t : Tables) (decoded : Option Envelope) (out : Verdict × Consumer) : Type 0 where
  events : List MessageCreated
  counted : Counted t out.1.db.tables events
  from : AllEvents (IsOf decoded) events
  done : (not (is_acked out.0) || is_claimed out.1.db.tables decoded) ≡ true

answer-Worked :
    (d : Delivery) (c : Consumer) (e : Envelope) (answer : Result ℕ × Db)
    → answer ≡ apply_event d.env e.event c.db
    → Worked c.db.tables (some e) (with_answer d c answer)
answer-Worked d c e (ok k, db) same = record {
  events = counted_by d.env e.event c.db;
  counted =
      subst (λ (x : Result ℕ × Db). Counted c.db.tables x.1.tables (counted_by d.env e.event c.db))
        (sym same) (apply-Counted d.env e.event c.db);
  from = counted_by-AllEvents (IsOf (some e)) d.env e.event c.db refl;
  done =
      let claimed : has_claim e.event.message_id db.tables ≡ true =
        subst (λ x. has_claim e.event.message_id x.1.tables ≡ true) (sym same)
          (apply-claimed d.env e.event c.db k (sym (ap (λ x. x.0) same))) in
      ground (arith, claimed);
}
answer-Worked d c e (err x, db) same = record {
  events = counted_by d.env e.event c.db;
  counted =
      subst (λ (x : Result ℕ × Db). Counted c.db.tables x.1.tables (counted_by d.env e.event c.db))
        (sym same) (apply-Counted d.env e.event c.db);
  from = counted_by-AllEvents (IsOf (some e)) d.env e.event c.db refl;
  done =
      let w = record d.around { parses = true; applies = false } in
      ground (arith, handle_unread-acked w d.number c.broker);
}

-- A delivery at which no work is done, and which is not acknowledged.
idle-Worked :
    (decoded : Option Envelope) (c : Consumer) (told : Verdict × Broker)
    → is_acked told.0 ≡ false
    → Worked c.db.tables decoded (told.0, record c { broker = told.1 })
idle-Worked decoded c told h = record {
  events = [];
  counted = Counted-refl c.db.tables;
  from = tt;
  done = ground (arith, h);
}

unparsed-acked :
    (w : Weather) (n : ℕ) (b : Broker)
    → is_acked (handle_unread (record w { parses = false }) n b).0 ≡ false
unfolding handle_unread dead_letter
unparsed-acked w n b = ground arith

bare-acked :
    (w : Weather) (n : ℕ) (b : Broker)
    → w.has_metadata ≡ false
    → is_acked (handle_unread w n b).0 ≡ false
unfolding handle_unread
bare-acked w n b h = rw h (ground arith)

decoded-Worked :
    (d : Delivery) (c : Consumer) (decoded : Option Envelope)
    → Worked c.db.tables decoded (consume_decoded d c decoded)
decoded-Worked d c none =
    idle-Worked none c (handle_unread (record d.around { parses = false }) d.number c.broker)
      (unparsed-acked d.around d.number c.broker)
decoded-Worked d c (some e) = answer-Worked d c e (apply_event d.env e.event c.db) refl

handled-Worked :
    (d : Delivery) (c : Consumer)
    → Worked c.db.tables (decode_envelope d.payload) (handle_delivery d c)
unfolding handle_delivery
handled-Worked d c = elim (Bool-cases d.around.has_metadata) [
  | inl there ↦ simp (there) (decoded-Worked d c (decode_envelope d.payload))
  | inr bare ↦ simp (bare) (
      idle-Worked (decode_envelope d.payload) c (handle_unread d.around d.number c.broker)
        (bare-acked d.around d.number c.broker bare))
]

one-Worked :
    (d : Delivery) (c : Consumer) → Worked c.db.tables (decode_envelope d.payload) (consume_one d c)
unfolding consume_one
one-Worked d c = pick d.around.survives
  where
    pick :
        (b : Bool)
        → Worked c.db.tables
            (decode_envelope d.payload)
            (if b then handle_delivery d c else (no_answer, c))
    pick true = handled-Worked d c
    pick false = record { events = []; counted = Counted-refl c.db.tables; from = tt; done = refl }

-- Each delivery that was acknowledged has its message counted in these tables.
unfoldable pub acked_counted : Tables → List Delivery → Consumer → Bool
acked_counted t [] c = true
acked_counted t (d ∷ ds) c =
    (not (is_acked (consume_one d c).0) || is_claimed t (decode_envelope d.payload))
    && acked_counted t ds (consume_one d c).1

is_claimed-later :
    (t t' : Tables) (evs : List MessageCreated) (decoded : Option Envelope)
    → Counted t t' evs
    → is_claimed t decoded ≡ true
    → is_claimed t' decoded ≡ true
is_claimed-later t t' evs none x h = absurd (cc)
is_claimed-later t t' evs (some e) x h = x.claims e.event.message_id ∙ rw h refl

done-later :
    (v : Verdict) (t t' : Tables) (evs : List MessageCreated) (decoded : Option Envelope)
    → Counted t t' evs
    → (not (is_acked v) || is_claimed t decoded) ≡ true
    → (not (is_acked v) || is_claimed t' decoded) ≡ true
done-later v t t' evs decoded x h = ground (arith, is_claimed-later t t' evs decoded x)

-- The work of a cluster's consumers on the messages of the stream, delivered in any order, as often as
-- JetStream likes and to whichever node, whatever fails and whichever node dies: there are events of
-- messages that were delivered, none of them counted before and none of them twice in the list, such
-- that exactly their messages were newly claimed, and each user's counter in each room has grown by one
-- for each of these events that is of that room and not sent by the user, for each row that makes the
-- user a member; and the message of each delivery that was acknowledged has been counted.
pub consume_all-Counted :
    (ds : List Delivery) (c : Consumer)
    → ((evs : List MessageCreated) × Counted c.db.tables (consume_all ds c).db.tables evs
        × AllEvents (IsDelivered ds) evs)
      × (acked_counted (consume_all ds c).db.tables ds c ≡ true)
unfolding consume_all acked_counted
consume_all-Counted [] c = (([], Counted-refl c.db.tables, tt), refl)
consume_all-Counted (d ∷ ds) c =
    let first = one-Worked d c in
    let rest = consume_all-Counted ds (consume_one d c).1 in
    (
      (
        first.events ++ rest.0.0,
        Counted-trans _ _ _ first.events rest.0.0 first.counted rest.0.1,
        AllEvents-append (IsDelivered (d ∷ ds)) first.events rest.0.0
            (AllEvents-imp (IsOf (decode_envelope d.payload)) (IsDelivered (d ∷ ds)) first.events
              (λ ev h. inl h) first.from)
            (AllEvents-imp (IsDelivered ds) (IsDelivered (d ∷ ds)) rest.0.0 (λ ev h. inr h)
              rest.0.2),
      ),
      ground (
        arith,
        done-later (consume_one d c).0 _ _ rest.0.0 (decode_envelope d.payload) rest.0.1 first.done,
        rest.1,
      ),
    )
