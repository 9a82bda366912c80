-- ===== src/Server/App/Unreached.antt =====
-- A node that cannot reach NATS when it starts (internal/broker/broker.go and
-- internal/server/server.go).
use go_chat_backend.Common.{ℕ, zero, suc, ◌*◌, ◌≤◌, ◌≡◌, refl, ◌∙◌, false, List, [], ◌∷◌, length}
use go_chat_backend.Database.{Outbox}
use go_chat_backend.Database.OutboxTable.Pending.{queue, InOrder}
use go_chat_backend.Outbox.Relay.{Weather, Relay, batch_size, drain}
use go_chat_backend.Outbox.Relay.Carried.{Carrier, AllAdmitted, drain-Round}
use go_chat_backend.Outbox.Relay.Progress.{IsOpen, IsCalm, rounds, rounds-queue}
use go_chat_backend.Outbox.Local.{Wiring, local_publish}
use go_chat_backend.Broker.Publish.{JetStream, Wiring as Sender}
use go_chat_backend.Server.App.{Start, from_env, World, new_publisher}

module _ {S P : Type 0} (jetstream : JetStream S) (sender : Sender) (w : Wiring P) where
  -- Without a broker, nothing is published to one.
  alone : Carrier (new_publisher jetstream sender w false)
  unfolding new_publisher
  alone = record {
    Moves = λ a b. b.broker ≡ a.broker;
    Has = λ a id ev. Unit {0};
    Admits = λ id ev. Unit {0};
    stays = λ a. refl;
    joins = λ a b c e f. f ∙ e;
    keeps = λ a b id ev e h. tt;
    moved = λ id ev ids a h. refl;
    finished = λ id ev ids a h e. tt;
  }

  all_admitted : (rows : List Outbox) → AllAdmitted alone rows
  unfolding alone
  all_admitted [] = tt
  all_admitted (row ∷ rows) = (λ ev e. tt, all_admitted rows)

  drain-broker :
      (weather : Weather) (r : Relay (World S P))
      → (drain (new_publisher jetstream sender w false) weather r).relay.world.broker
        ≡ r.world.broker
  unfolding alone
  drain-broker weather r = (drain-Round alone weather r (all_admitted _)).moves

  rounds-broker :
      (weather : Weather) (n : ℕ) (r : Relay (World S P))
      → (rounds (new_publisher jetstream sender w false) weather n r).world.broker ≡ r.world.broker
  unfolding rounds
  rounds-broker weather zero r = refl
  rounds-broker weather (suc n) r =
      rounds-broker weather n (drain (new_publisher jetstream sender w false) weather r).relay
      ∙ drain-broker weather r

-- A node that was to use a broker and found none when it started does not leave the rows of the outbox
-- waiting: while the work on the counters succeeds and the database answers, its relay takes them all
-- off the queue, however many there are, and has published none of them to the broker.
pub unreached_broker :
    {S P : Type 0} (jetstream : JetStream S) (sender : Sender) (w : Wiring P) (start : Start)
    (weather : Weather) (n high : ℕ) (r : Relay (World S P))
    → from_env start ≡ false
    → IsOpen (local_publish w)
    → IsCalm weather
    → InOrder r.db.tables high
    → length (queue r.db.tables) ≤ n * batch_size
    → (queue (rounds (new_publisher jetstream sender w (from_env start)) weather n r).db.tables
        ≡ [])
      × ((rounds (new_publisher jetstream sender w (from_env start)) weather n r).world.broker
          ≡ r.world.broker)
unfolding new_publisher
unreached_broker jetstream sender w start weather n high r down opened calm h few = rw down (
  rounds-queue (new_publisher jetstream sender w false) weather n high r
      (λ id ev ids world. opened id ev ids world.node) calm h few,
  rounds-broker jetstream sender w weather n r,
)
