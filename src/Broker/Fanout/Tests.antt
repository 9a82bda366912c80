-- ===== src/Broker/Fanout/Tests.antt =====
-- The fan-out of one message (internal/broker/consume.go).
use go_chat_backend.Common.{ℕ, ◌≡◌, refl, some, List, [], ◌∷◌, ◌+◌}
use go_chat_backend.Common.Decimal.{format_from}
use go_chat_backend.Database.Samples.{calm, two_members, event}
use go_chat_backend.Database.Unread.{apply_unread, claim, bump_unread}
use go_chat_backend.Outbox.Local.{Node, Wiring, local_publish, apply_event}
use go_chat_backend.Broker.Publish.{
  Stored, Publisher, Wiring as Sender, broker_publish, encode_envelope, other_bytes,
}
use go_chat_backend.Broker.Publish.Samples.{memory}
use go_chat_backend.Broker.Fanout.{Subscriber, fanout, fanout_all, decode_envelope}
use go_chat_backend.Broker.Fanout.Delivered.{news_of, fanout-local_publish}
use go_chat_backend.Common.Rows.{select, find}
use go_chat_backend.Ws.Hub.{new_hub}

abbrev wiring : Wiring ℕ
wiring = record { env = λ id. calm 101; encode = λ ev. some ev.message_id }

abbrev sender : Sender
sender = record { node_id = "node-1"; now = λ id. 200 }

abbrev idle : Publisher (List Stored)
idle = record { js = []; published = 0; publish_fails = 0 }

abbrev node_2 : Subscriber ℕ
node_2 = record { hub = new_hub; fanout_recv = 0 }

abbrev alone : Node ℕ
alone = record { db = two_members; hub = new_hub }

fanout-local_publish_example :
    fanout_all wiring
      (news_of memory sender wiring idle
        (broker_publish memory sender 7 (event 5) (1 ∷ 2 ∷ []) idle).1)
      node_2
    ≡ record {
      hub = (local_publish wiring 7 (event 5) (1 ∷ 2 ∷ []) alone).1.hub;
      fanout_recv = 0 + 1;
    }
unfolding broker_publish encode_envelope format_from memory local_publish apply_event apply_unread
    claim bump_unread select find
fanout-local_publish_example =
    fanout-local_publish memory sender wiring 7 (event 5) (1 ∷ 2 ∷ []) idle node_2 alone (cc) refl
      refl

-- Bytes that are no envelope reach no socket.
garbage :
    fanout wiring
      (record { subject = []; payload = other_bytes "{"; message_id = []; stored_at = 0 })
      node_2
    ≡ node_2
unfolding fanout decode_envelope
garbage = refl
