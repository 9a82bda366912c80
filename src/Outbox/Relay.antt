-- ===== src/Outbox/Relay.antt =====
-- The relay that drains the outbox table into a publisher (internal/outbox/relay.go). The publisher
-- is a parameter with a state of its own; logs and spans are left out, and so is the text of an error
-- that a note carries on.
pub mod Prefix
pub mod Queue
pub mod Acked
pub mod Carried
pub mod Payloads
pub mod Rows
pub mod Left
pub mod Mark
pub mod Pacing
pub mod Progress
mod Tests
use Prim.Native.String.{String}
use go_chat_backend.Common.{
  ℕ, ◌+◌, ◌-◌, ◌*◌, ◌/◌, Bool, true, false, ◌&&◌, Option, none, some, List, [], ◌∷◌, ◌++◌, ltb,
  if◌then◌else◌, ◌==◌, length,
}
use go_chat_backend.Event.{MessageCreated, decode_message_created}
use go_chat_backend.Database.{Outbox, Db, Env, Result, ok, err}
use go_chat_backend.Database.Rooms.{list_conversation_member_ids}
use go_chat_backend.Database.OutboxTable.{
  fetch_outbox, mark_outbox_published, mark_outbox_failed, delete_outbox_published_before,
  outbox_stats, Stats,
}
use go_chat_backend.Database.Unread.{delete_consumed_before}

abbrev pub batch_size : ℕ
batch_size = 100

-- How the database behaves at each call of one round; the calls for a row go by the row's id.
pub record Weather : Type 0 where
  pub fetch : Env
  pub members : ℕ → Env
  pub note : ℕ → Env
  pub mark : Env

pub record Batch : Type 0 where
  pub fetched : ℕ
  pub published : ℕ

-- The state that the relay works on: the database, the publisher's state and the counters.
pub record Relay (W : Type 0) : Type 0 where
  pub db : Db
  pub world : W
  pub published : ℕ
  pub failed : ℕ

-- A publisher takes the row's id, the event and the receivers, and fails with a reason or not.
abbrev pub Publish : Type 0 → Type 0
Publish W = ℕ → MessageCreated → List ℕ → W → Option String × W

-- What became of one row: done, or the loop stops.
pub record Attempt (W : Type 0) : Type 0 where
  pub is_done : Bool
  pub relay : Relay W

pub record Drained (W : Type 0) : Type 0 where
  pub batch : Batch
  pub is_error : Bool
  pub relay : Relay W

module _ {W : Type 0} where
  -- An error of `MarkOutboxFailed` is only logged.
  unfoldable pub note : Weather → ℕ → String → Relay W → Relay W
  note weather id reason r = record r {
    db = (mark_outbox_failed (weather.note id) id reason r.db).1;
  }

  abbrev pub after_publish : Weather → Outbox → Relay W → Option String × W → Attempt W
  after_publish weather row r (none, w) = record { is_done = true; relay = record r { world = w } }
  after_publish weather row r (some reason, w) = record {
    is_done = false;
    relay = note weather row.id reason (record r { world = w; failed = r.failed + 1 });
  }

  abbrev pub after_members :
      Publish W → Weather → Outbox → MessageCreated → Relay W → Result (List ℕ) × Db → Attempt W
  after_members publish weather row ev r (ok ids, db) =
      after_publish weather row (record r { db = db }) (publish row.id ev ids r.world)
  after_members publish weather row ev r (err e, db) = record {
    is_done = false;
    relay = note weather row.id "list members" (record r { db = db });
  }

  abbrev pub after_decode :
      Publish W → Weather → Outbox → Relay W → Option MessageCreated → Attempt W
  after_decode publish weather row r none = record {
    is_done = true;
    relay = note weather row.id "undecodable payload" r;
  }
  after_decode publish weather row r (some ev) =
      after_members publish weather row ev r
        (list_conversation_member_ids (weather.members row.id) ev.conversation_id r.db)

  unfoldable pub attempt : Publish W → Weather → Outbox → Relay W → Attempt W
  attempt publish weather row r =
      after_decode publish weather row r (decode_message_created row.payload)

  -- The loop over the rows: the ids that are done, in order, up to the first row that fails.
  unfoldable pub drain_rows : Publish W → Weather → List Outbox → Relay W → List ℕ × Relay W
  drain_rows publish weather [] r = ([], r)
  drain_rows publish weather (row ∷ rows) r =
      let rest = drain_rows publish weather rows (attempt publish weather row r).relay in
      if (attempt publish weather row r).is_done
      then (row.id ∷ rest.0, rest.1)
      else ([], (attempt publish weather row r).relay)

  abbrev pub after_mark : ℕ → List ℕ → Relay W → Result (Unit {0}) × Db → Drained W
  after_mark fetched done r (ok _, db) = record {
    batch = record { fetched = fetched; published = length done };
    is_error = false;
    relay = record r { db = db; published = r.published + length done };
  }
  after_mark fetched done r (err e, db) = record {
    batch = record { fetched = fetched; published = length done };
    is_error = true;
    relay = record r { db = db };
  }

  abbrev pub mark_done : Weather → ℕ → List ℕ × Relay W → Drained W
  mark_done weather fetched (done, r) =
      after_mark fetched done r (mark_outbox_published weather.mark done r.db)

  abbrev pub after_fetch : Publish W → Weather → Relay W → Result (List Outbox) × Db → Drained W
  after_fetch publish weather r (err e, db) = record {
    batch = record { fetched = 0; published = 0 };
    is_error = true;
    relay = record r { db = db };
  }
  after_fetch publish weather r (ok [], db) = record {
    batch = record { fetched = 0; published = 0 };
    is_error = false;
    relay = record r { db = db };
  }
  after_fetch publish weather r (ok (row ∷ rows), db) =
      mark_done weather (length (row ∷ rows))
        (drain_rows publish weather (row ∷ rows) (record r { db = db }))

  unfoldable pub drain : Publish W → Weather → Relay W → Drained W
  drain publish weather r =
      after_fetch publish weather r (fetch_outbox weather.fetch batch_size r.db)

-- What `runLeader` does after a round, in nanoseconds of wait.
pub data Next : Type 0 where
  sleep : ℕ → Next
  again : Next

abbrev pub leader_retry : ℕ
leader_retry = 5 * 1_000_000_000

unfoldable pub next_round : ℕ → Batch → Bool → Next
next_round poll_interval batch true = sleep leader_retry
next_round poll_interval batch false =
    if ltb 0 batch.fetched && batch.published == 0
    then sleep leader_retry
    else if batch.published == batch_size
    then again
    else sleep poll_interval

-- The janitor; errors are only logged.
unfoldable pub clean : Env → Env → ℕ → ℕ → ℕ → Db → Db
clean outbox_env inbox_env now retention inbox_retention db =
    (delete_consumed_before inbox_env (now - inbox_retention)
      (delete_outbox_published_before outbox_env (now - retention) db).1).1

-- What `runStats` shows: nothing waiting means no lag.
pub record Gauges : Type 0 where
  pub pending : ℕ
  pub lag_millis : ℕ

abbrev pub gauges_of : ℕ → Gauges → Result Stats × Db → Gauges
gauges_of now g (err e, db) = g
gauges_of now g (ok s, db) = record {
  pending = s.pending;
  lag_millis = elim s.oldest [ none ↦ 0 | some t ↦ (now - t) / 1_000_000 ];
}

unfoldable pub refresh_stats : Env → Gauges → Db → Gauges
refresh_stats env g db = gauges_of env.now g (outbox_stats env db)
