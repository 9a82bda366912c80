-- ===== src/Outbox/Local/Once.antt =====
-- From the outbox to the counters on a single node: each event counts once, whatever fails
-- (internal/outbox/relay.go with the publisher of internal/outbox/local.go).

use go_chat_backend.Common.{
  ℕ, ◌≡◌, refl, ap, sym, subst, ◌∙◌, true, false, none, List, [], ◌∷◌, ◌++◌, ◌⊎◌, inl, inr,
  Bool-cases,
}
use go_chat_backend.Event.{MessageCreated, Payload}
use go_chat_backend.Database.{Tables, Db, Result, ok, err}
use go_chat_backend.Database.OutboxTable.{fetch_outbox, is_in}
use go_chat_backend.Database.OutboxTable.Pending.{InOrder, queue}
use go_chat_backend.Database.Unread.{has_claim}
use go_chat_backend.Outbox.Local.{Node, Wiring, apply_event, handed_over, local_publish}
use go_chat_backend.Outbox.Local.Counted.{
  Counted, Counted-refl, Counted-trans, counted_by, apply-Counted, apply-claimed, AllEvents,
  AllEvents-append, counted_by-AllEvents,
}
use go_chat_backend.Outbox.Relay.Carried.{Carrier, AllAdmitted, Round, rows_of, drain-Round}
use go_chat_backend.Outbox.Relay.{Weather, Relay, batch_size, drain}
use go_chat_backend.Outbox.Relay.Payloads.{keys, payloads, drain-keys, drain-payloads}
use go_chat_backend.Outbox.Relay.Left.{AllDecode, drain-left}
use go_chat_backend.Outbox.Relay.Queue.{drain-queue}
use go_chat_backend.Outbox.Relay.Rows.{fetched_admitted, IsRow, IsSent}

-- The tables that the publisher sees.
abbrev pub seen_by : {P : Type 0} → Relay (Node P) → Tables
seen_by r = r.world.db.tables

-- The row's event was counted, now or before.
abbrev pub IsApplied : List (ℕ × Payload) → Tables → ℕ → Type 0
IsApplied rows t id = (ev : MessageCreated) × IsRow rows id ev × (has_claim ev.message_id t ≡ true)

module _ {P : Type 0} (table : List (ℕ × Payload)) (w : Wiring P) where
  moved :
      (id : ℕ) (ev : MessageCreated) (ids : List ℕ) (n : Node P) (answer : Result ℕ × Db)
      → answer ≡ apply_event (w.env id) ev n.db
      → Counted n.db.tables
          (handed_over w ev ids n answer).1.db.tables
          (counted_by (w.env id) ev n.db)
  moved id ev ids n (ok k, db) e =
      subst (λ (x : Result ℕ × Db). Counted n.db.tables x.1.tables (counted_by (w.env id) ev n.db))
        (sym e) (apply-Counted (w.env id) ev n.db)
  moved id ev ids n (err x, db) e =
      subst (λ (x : Result ℕ × Db). Counted n.db.tables x.1.tables (counted_by (w.env id) ev n.db))
        (sym e) (apply-Counted (w.env id) ev n.db)

  finished :
      (id : ℕ) (ev : MessageCreated) (ids : List ℕ) (n : Node P) (answer : Result ℕ × Db)
      → answer ≡ apply_event (w.env id) ev n.db
      → (handed_over w ev ids n answer).0 ≡ none
      → has_claim ev.message_id (handed_over w ev ids n answer).1.db.tables ≡ true
  finished id ev ids n (ok k, db) e h =
      subst (λ x. has_claim ev.message_id x.1.tables ≡ true) (sym e)
        (apply-claimed (w.env id) ev n.db k (sym (ap (λ x. x.0) e)))
  finished id ev ids n (err x, db) e h = absurd (cc)

  -- The single node's publisher: it counts events for the first time, and a row's event that it has
  -- accepted is counted.
  counting : Carrier (local_publish w)
  unfolding local_publish
  counting = record {
    Moves = λ n n'.
        (evs : List MessageCreated) × Counted n.db.tables n'.db.tables evs
        × AllEvents (IsSent table) evs;
    Has = λ n id ev. IsRow table id ev × (has_claim ev.message_id n.db.tables ≡ true);
    Admits = IsRow table;
    stays = λ n. ([], Counted-refl n.db.tables, tt);
    joins = λ n n' n'' m m'. (
      m.0 ++ m'.0,
      Counted-trans _ _ _ m.0 m'.0 m.1 m'.1,
      AllEvents-append (IsSent table) m.0 m'.0 m.2 m'.2,
    );
    keeps = λ n n' id ev m h. (h.0, m.1.claims ev.message_id ∙ rw (h.1) refl);
    moved = λ id ev ids n a. (
      counted_by (w.env id) ev n.db,
      moved id ev ids n (apply_event (w.env id) ev n.db) refl,
      counted_by-AllEvents (IsSent table) (w.env id) ev n.db (id, a),
    );
    finished = λ id ev ids n a h. (a, finished id ev ids n (apply_event (w.env id) ev n.db) refl h);
  }

  admitted :
      (weather : Weather) (high : ℕ) (r : Relay (Node P))
      → InOrder r.db.tables high
      → keys r.db ≡ table
      → AllAdmitted counting
          (rows_of counting weather (fetch_outbox weather.fetch batch_size r.db).0)
  unfolding counting
  admitted weather high r h same =
      fetched_admitted counting table (λ id ev k. k) weather high r h same

  round :
      (weather : Weather) (high : ℕ) (r : Relay (Node P))
      → InOrder r.db.tables high
      → keys r.db ≡ table
      → Round counting weather r.world
          (rows_of counting weather (fetch_outbox weather.fetch batch_size r.db).0)
          (drain (local_publish w) weather r)
  round weather high r h same = drain-Round counting weather r (admitted weather high r h same)

  -- A row that leaves the queue in a round was counted.
  round-left :
      (weather : Weather) (high id : ℕ) (r : Relay (Node P))
      → InOrder r.db.tables high
      → keys r.db ≡ table
      → AllDecode (payloads r.db)
      → is_in (queue r.db.tables) id ≡ true
      → is_in (queue (drain (local_publish w) weather r).relay.db.tables) id ≡ false
      → IsApplied table (seen_by (drain (local_publish w) weather r).relay) id
  unfolding counting
  round-left weather high id r h same d i j =
      let a = drain-left counting weather high r id h d (admitted weather high r h same) i j in
      (a.0, a.1.0, a.1.1)

-- Some rounds, each with what the database does during it.
unfoldable pub local_rounds :
    {P : Type 0} → List (Weather × Wiring P) → Relay (Node P) → Relay (Node P)
local_rounds [] r = r
local_rounds ((weather, w) ∷ ws) r = local_rounds ws (drain (local_publish w) weather r).relay

-- What some rounds did: the events that they counted, and what became of the row with this id.
pub record Done {P : Type 0} (table : List (ℕ × Payload)) (r : Relay (Node P)) (id : ℕ)
    (after : Relay (Node P)) : Type 0 where
  pub events : List MessageCreated
  pub counted : Counted (seen_by r) (seen_by after) events
  pub sent : AllEvents (IsSent table) events
  pub left :
      (is_in (queue r.db.tables) id ≡ false)
      ⊎ (is_in (queue after.db.tables) id ≡ true)
      ⊎ IsApplied table (seen_by after) id

rounds-Done :
    {P : Type 0} (table : List (ℕ × Payload)) (ws : List (Weather × Wiring P)) (high id : ℕ)
    (r : Relay (Node P))
    → InOrder r.db.tables high
    → keys r.db ≡ table
    → AllDecode (payloads r.db)
    → Done table r id (local_rounds ws r)
unfolding local_rounds counting
rounds-Done table [] high id r h same d = record {
  events = [];
  counted = Counted-refl (seen_by r);
  sent = tt;
  left = elim (Bool-cases (is_in (queue r.db.tables) id)) [
    | inl waits ↦ inr (inl waits)
    | inr gone ↦ inl gone
  ];
}
rounds-Done table ((weather, w) ∷ ws) high id r h same d =
    let next = (drain (local_publish w) weather r).relay in
    let first = (round table w weather high r h same).moves in
    let rest =
      rounds-Done table ws high id next (drain-queue (local_publish w) weather high r h).1
        (drain-keys (local_publish w) weather r ∙ same)
        (subst AllDecode (sym (drain-payloads (local_publish w) weather r)) d) in
    record {
      events = first.0 ++ rest.events;
      counted = Counted-trans _ _ _ first.0 rest.events first.1 rest.counted;
      sent = AllEvents-append (IsSent table) first.0 rest.events first.2 rest.sent;
      left = elim (Bool-cases (is_in (queue r.db.tables) id)) [
        | inr never ↦ inl never
        | inl waits ↦ elim rest.left [
          | inr later ↦ inr later
          | inl gone ↦
              let a = round-left table w weather high id r h same d waits gone in
              inr (inr (a.0, a.1, rest.counted.claims a.0.message_id ∙ rw (a.2) refl))
        ]
      ];
    }

-- From the outbox to the counters. However many rounds a single node's relay makes over a table in
-- order whose payloads can all be decoded, and whatever fails in them, so that rows are published again
-- and again: there are events of rows of the table, none of them counted before and none of them twice
-- in the list, such that exactly their messages were newly claimed, and each user's counter in each
-- room has grown by one for each of these events that is of that room and not sent by the user, for
-- each row that makes the user a member; and a row that waited in the outbox waits still, or its event
-- has been counted.
pub local_rounds-Counted :
    {P : Type 0} (ws : List (Weather × Wiring P)) (high id : ℕ) (r : Relay (Node P))
    → InOrder r.db.tables high
    → AllDecode (payloads r.db)
    → Done (keys r.db) r id (local_rounds ws r)
local_rounds-Counted ws high id r h d = rounds-Done (keys r.db) ws high id r h refl d
