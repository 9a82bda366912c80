-- ===== src/Server/App.antt =====
-- Where a node's relay publishes to, and the order in which a node closes (New and Shutdown of
-- internal/server/server.go, with FromEnv of internal/broker/broker.go).
pub mod Unreached
pub mod Closing
mod Tests
use Prim.Native.String.{String}
use go_chat_backend.Common.{ℕ, Bool, true, false, ◌&&◌, Option, none, some, List, [], ◌∷◌, ◌++◌}
use go_chat_backend.Event.{MessageCreated}
use go_chat_backend.Outbox.Relay.{Publish}
use go_chat_backend.Outbox.Local.{Node, Wiring, local_publish}
use go_chat_backend.Broker.Publish.{JetStream, Publisher, Wiring as Sender, broker_publish}

-- What FromEnv meets: whether NATS_URL is set, and which of its steps succeed.
pub record Start : Type 0 where
  pub has_url : Bool
  pub connects : Bool
  pub has_jetstream : Bool
  pub has_streams : Bool

-- Whether there is a broker; otherwise FromEnv answers nil, with a warning if the URL is set.
unfoldable pub from_env : Start → Bool
from_env s = s.has_url && s.connects && s.has_jetstream && s.has_streams

-- What the publisher of a node works on.
pub record World (S P : Type 0) : Type 0 where
  pub broker : Publisher S
  pub node : Node P

module _ {S P : Type 0} (jetstream : JetStream S) (sender : Sender) (w : Wiring P) where
  abbrev pub to_broker : World S P → Option String × Publisher S → Option String × World S P
  to_broker world (answer, b) = (answer, record world { broker = b })

  abbrev pub to_node : World S P → Option String × Node P → Option String × World S P
  to_node world (answer, n) = (answer, record world { node = n })

  -- The publisher that New gives the relay.
  unfoldable pub new_publisher : Bool → Publish (World S P)
  new_publisher true id ev ids world =
      to_broker world (broker_publish jetstream sender id ev ids world.broker)
  new_publisher false id ev ids world = to_node world (local_publish w id ev ids world.node)

-- What is open on a node.
pub record App : Type 0 where
  pub draining : Bool
  pub serving : Bool
  pub background : Bool
  pub hub : Bool
  pub broker : Bool
  pub presence : Bool
  pub database : Bool
  pub tracing : Bool

abbrev pub running : App
running = record {
  draining = false;
  serving = true;
  background = true;
  hub = true;
  broker = true;
  presence = true;
  database = true;
  tracing = true;
}

pub data Close : Type 0 where
  set_draining http_shutdown stop_background hub_close : Close
  broker_close presence_close database_close trace_shutdown : Close

-- Each of the calls ends what it is for, also when it comes back with an error.
unfoldable pub close_one : Close → App → App
close_one set_draining a = record a { draining = true }
close_one http_shutdown a = record a { serving = false }
close_one stop_background a = record a { background = false }
close_one hub_close a = record a { hub = false }
close_one broker_close a = record a { broker = false }
close_one presence_close a = record a { presence = false }
close_one database_close a = record a { database = false }
close_one trace_shutdown a = record a { tracing = false }

abbrev pub steps : List Close
steps =
    set_draining ∷ http_shutdown ∷ stop_background ∷ hub_close ∷ broker_close ∷ presence_close
    ∷ database_close ∷ trace_shutdown ∷ []

unfoldable pub close_all : List Close → App → App
close_all [] a = a
close_all (s ∷ ss) a = close_all ss (close_one s a)

-- errors.Join: the errors that there are, in order.
unfoldable pub join : List (Option String) → List String
join [] = []
join (none ∷ es) = join es
join (some e ∷ es) = e ∷ join es

abbrev pub calls : (Close → Option String) → List (Option String)
calls fails =
    fails http_shutdown
    ∷ fails broker_close
    ∷ fails presence_close
    ∷ fails database_close
    ∷ fails trace_shutdown
    ∷ []

-- The errors of the calls that may fail are kept, and none stops the shutdown.
unfoldable pub shutdown : (Close → Option String) → App → List String × App
shutdown fails a = (join (calls fails), close_all steps a)
