-- ===== src/Server/App/Tests.antt =====
-- The start and the end of a node (internal/server/server.go).
use go_chat_backend.Common.{ℕ, ◌≡◌, refl, none, some, List, [], ◌∷◌, arith, true, false, Option}
use Prim.Native.String.{String}
use go_chat_backend.Common.Rows.{select}
use go_chat_backend.Database.Samples.{calm, two_members, waiting}
use go_chat_backend.Database.OutboxTable.Pending.{queue}
use go_chat_backend.Database.Unread.{apply_unread, claim, bump_unread}
use go_chat_backend.Outbox.Relay.{Weather, Relay}
use go_chat_backend.Outbox.Relay.Progress.{IsOpen, rounds}
use go_chat_backend.Outbox.Local.{Wiring, local_publish, apply_event}
use go_chat_backend.Broker.Publish.{Stored, Wiring as Sender}
use go_chat_backend.Broker.Publish.Samples.{memory}
use go_chat_backend.Ws.Hub.{new_hub}
use go_chat_backend.Server.App.{
  Start, from_env, World, new_publisher, running, close_all, close_one, shutdown, join,
  http_shutdown, database_close, Close,
}
use go_chat_backend.Server.App.Unreached.{unreached_broker}
use go_chat_backend.Server.App.Closing.{closed}

abbrev wiring : Wiring ℕ
wiring = record { env = λ id. calm 101; encode = λ ev. some ev.message_id }

abbrev sender : Sender
sender = record { node_id = "node-1"; now = λ id. 200 }

-- NATS_URL is set, and nothing listens there.
abbrev nats_down : Start
nats_down = record { has_url = true; connects = false; has_jetstream = false; has_streams = false }

abbrev fair : Weather
fair = record { fetch = calm 100; members = λ id. calm 101; note = λ id. calm 102; mark = calm 103 }

abbrev start : Relay (World (List Stored) ℕ)
start = record {
  db = record two_members {
    tables = record two_members.tables { outbox = waiting 1 ∷ waiting 2 ∷ [] };
  };
  world = record {
    broker = record { js = []; published = 0; publish_fails = 0 };
    node = record { db = two_members; hub = new_hub };
  };
  published = 0;
  failed = 0;
}

wiring-IsOpen : IsOpen (local_publish wiring)
unfolding local_publish apply_event apply_unread claim bump_unread
wiring-IsOpen id ev ids w = ground arith

unreached_broker_example :
    (queue (rounds (new_publisher memory sender wiring (from_env nats_down)) fair 1 start).db.tables
      ≡ [])
    × ((rounds (new_publisher memory sender wiring (from_env nats_down)) fair 1 start).world.broker
        ≡ start.world.broker)
unfolding from_env select
unreached_broker_example =
    unreached_broker memory sender wiring nats_down fair 1 3 start refl wiring-IsOpen
      (record { fetched = refl; members = λ id. refl; marked = refl })
      (omega arith, (omega arith, omega arith)) (omega arith)

-- Two errors, and everything is closed.
abbrev two_errors : Close → Option String
two_errors http_shutdown = some "context deadline exceeded"
two_errors database_close = some "bad connection"
two_errors s = none

joined : shutdown two_errors running ≡ ("context deadline exceeded" ∷ "bad connection" ∷ [], closed)
unfolding shutdown join close_all close_one
joined = refl
