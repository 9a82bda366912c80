-- ===== src/Broker/Fanout.antt =====
-- The delivery of every message to this node's sockets (SubscribeFanout of
-- internal/broker/consume.go), with the deliverMessage of internal/server/ws.go that it is given.
pub mod Delivered
mod Tests
use go_chat_backend.Common.{ℕ, ◌+◌, Option, none, some, List, [], ◌∷◌}
use go_chat_backend.Outbox.Local.{Wiring, deliver_message}
use go_chat_backend.Broker.Publish.{Envelope, Bytes, json_envelope, other_bytes, Stored}
use go_chat_backend.Ws.Hub.{Hub}

-- What a node has of the fan-out: its sockets' hub, and how many messages it got.
pub record Subscriber (P : Type 0) : Type 0 where
  pub hub : Hub P
  pub fanout_recv : ℕ

-- json.Unmarshal into an envelope.
unfoldable pub decode_envelope : Bytes → Option Envelope
decode_envelope (json_envelope e) = some e
decode_envelope (other_bytes s) = none

-- Bytes that are no envelope are dropped.
abbrev pub deliver_envelope :
    {P : Type 0} → Wiring P → Subscriber P → Option Envelope → Subscriber P
deliver_envelope w n none = n
deliver_envelope w n (some e) = record {
  hub = deliver_message w e.event e.user_ids n.hub;
  fanout_recv = n.fanout_recv + 1;
}

unfoldable pub fanout : {P : Type 0} → Wiring P → Stored → Subscriber P → Subscriber P
fanout w m n = deliver_envelope w n (decode_envelope m.payload)

-- The messages that the stream gets after the subscription, in order.
unfoldable pub fanout_all : {P : Type 0} → Wiring P → List Stored → Subscriber P → Subscriber P
fanout_all w [] n = n
fanout_all w (m ∷ ms) n = fanout_all w ms (fanout w m n)
