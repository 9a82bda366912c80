-- ===== src/Outbox/Local.antt =====
-- The publisher of a node without a broker (internal/outbox/local.go), wired as New of
-- internal/server/server.go does it: to applyUnread and deliverMessage of internal/server/ws.go. The
-- relay and the publisher write to different tables of the database, so each is given its own view of
-- it. A frame is the JSON of an event, which may fail.
pub mod Counted
pub mod Once
mod Tests
use Prim.Native.String.{String}
use go_chat_backend.Common.{ℕ, Option, none, some, List}
use go_chat_backend.Event.{MessageCreated}
use go_chat_backend.Database.{Db, Env, Result, ok, err}
use go_chat_backend.Database.Unread.{apply_unread}
use go_chat_backend.Outbox.Relay.{Publish}
use go_chat_backend.Ws.Hub.{Hub, enqueue}

pub record Node (P : Type 0) : Type 0 where
  pub db : Db
  pub hub : Hub P

-- How the database behaves at the work for a row, and the frame of an event.
pub record Wiring (P : Type 0) : Type 0 where
  pub env : ℕ → Env
  pub encode : MessageCreated → Option P

-- `deliverMessage`: an event that cannot be encoded is only logged.
abbrev pub broadcast_frame : {P : Type 0} → List ℕ → Option P → Hub P → Hub P
broadcast_frame users none h = h
broadcast_frame users (some p) h = enqueue (record { user_ids = users; payload = p }) h

unfoldable pub deliver_message : {P : Type 0} → Wiring P → MessageCreated → List ℕ → Hub P → Hub P
deliver_message w ev users h = broadcast_frame users (w.encode ev) h

-- `applyUnread`, less its two metrics.
unfoldable pub apply_event : Env → MessageCreated → Db → Result ℕ × Db
apply_event env ev db = apply_unread env ev.message_id ev.conversation_id ev.sender_id ev.seq db

abbrev pub handed_over :
    {P : Type 0}
    → Wiring P
    → MessageCreated
    → List ℕ
    → Node P
    → Result ℕ × Db
    → Option String × Node P
handed_over w ev users n (err e, db) = (some "apply", record n { db = db })
handed_over w ev users n (ok changed, db) =
    (none, record { db = db; hub = deliver_message w ev users n.hub })

unfoldable pub local_publish : {P : Type 0} → Wiring P → Publish (Node P)
local_publish w id ev users n = handed_over w ev users n (apply_event (w.env id) ev n.db)
