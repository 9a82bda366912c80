-- ===== src/Broker/Fanout/Delivered.antt =====
-- A cluster delivers as a single node does (internal/broker/broker.go and internal/broker/consume.go,
-- against internal/outbox/local.go).

use go_chat_backend.Common.{
  ℕ, ◌+◌, ◌≡◌, ◌≢◌, refl, ap, sym, ◌∙◌, Option, none, some, List, [], ◌∷◌, ◌++◌, drop, length,
  arith, inl, inr, ltb, Bool-cases,
}
use go_chat_backend.Event.{MessageCreated, year_10000}
use go_chat_backend.Database.{Db, Result, ok, err}
use go_chat_backend.Outbox.Local.{
  Node, Wiring, deliver_message, apply_event, handed_over, local_publish,
}
use go_chat_backend.Broker.Publish.{
  Bytes, Envelope, encode_envelope, json_envelope, Stored, JetStream, Publisher, Wiring as Sender,
  outgoing, publish_encoded, broker_publish,
}
use go_chat_backend.Broker.Publish.Stream.{after-js}
use go_chat_backend.Broker.Fanout.{Subscriber, decode_envelope, fanout, fanout_all}

drop-append : (ms ns : List Stored) → drop (length ms) (ms ++ ns) ≡ ns
drop-append [] ns = refl
drop-append (m ∷ ms) ns = drop-append ms ns

encode-decode :
    (e : Envelope) (payload : Bytes)
    → encode_envelope e ≡ some payload
    → decode_envelope payload ≡ some e
unfolding encode_envelope decode_envelope
encode-decode e payload h = elim (Bool-cases (ltb e.event.created_at year_10000)) [
  | inl fits ↦ let same : payload ≡ json_envelope e = ground arith in rw same refl
  | inr late ↦ absurd (ground arith)
]

local_hub :
    {P : Type 0} (lw : Wiring P) (ev : MessageCreated) (ids : List ℕ) (n : Node P)
    (answer : Result ℕ × Db)
    → (handed_over lw ev ids n answer).0 ≡ none
    → (handed_over lw ev ids n answer).1.hub ≡ deliver_message lw ev ids n.hub
local_hub lw ev ids n (ok k, db) h = refl
local_hub lw ev ids n (err e, db) h = absurd (cc)

module _ {S P : Type 0} (jetstream : JetStream S) (w : Sender) (lw : Wiring P) where
  -- What the stream got.
  abbrev pub news_of : Publisher S → Publisher S → List Stored
  news_of before after = drop (length (jetstream.stored before.js)) (jetstream.stored after.js)

  encoded-delivered :
      (id : ℕ) (ev : MessageCreated) (ids : List ℕ) (b : Publisher S) (n : Subscriber P)
      (payload : Option Bytes)
      → encode_envelope (record { event = ev; user_ids = ids; from = w.node_id }) ≡ payload
      → jetstream.stored (publish_encoded jetstream w id ev b payload).1.js ≢ jetstream.stored b.js
      → fanout_all lw (news_of b (publish_encoded jetstream w id ev b payload).1) n
        ≡ record { hub = deliver_message lw ev ids n.hub; fanout_recv = n.fanout_recv + 1 }
  unfolding fanout_all fanout
  encoded-delivered id ev ids b n none e changed = absurd (changed refl)
  encoded-delivered id ev ids b n (some payload) e changed =
      let m = outgoing jetstream w id ev payload in
      let answer = jetstream.publish_msg m b.js in
      let after = ap jetstream.stored (after-js jetstream w b answer) in
      elim (jetstream.stored-publish_msg m b.js) [
        | inl same ↦ absurd (changed (after ∙ same))
        | inr grown ↦
            ap (λ l. fanout_all lw (drop (length (jetstream.stored b.js)) l) n) (after ∙ grown)
            ∙ ap (λ l. fanout_all lw l n) (drop-append (jetstream.stored b.js) (m ∷ []))
            ∙ rw (encode-decode _ payload e) refl
      ]

-- A message that the stream takes from a relay leaves the hub of every subscribed node as the
-- publisher of a single node leaves its hub, once the work on the counters is done there; the node
-- has then got one message more.
pub fanout-local_publish :
    {S P : Type 0} (jetstream : JetStream S) (w : Sender) (lw : Wiring P) (id : ℕ)
    (ev : MessageCreated) (ids : List ℕ) (b : Publisher S) (n : Subscriber P) (local : Node P)
    → jetstream.stored (broker_publish jetstream w id ev ids b).1.js ≢ jetstream.stored b.js
    → (local_publish lw id ev ids local).0 ≡ none
    → local.hub ≡ n.hub
    → fanout_all lw (news_of jetstream w lw b (broker_publish jetstream w id ev ids b).1) n
      ≡ record { hub = (local_publish lw id ev ids local).1.hub; fanout_recv = n.fanout_recv + 1 }
unfolding broker_publish local_publish
fanout-local_publish jetstream w lw id ev ids b n local changed done same =
    let here = local_hub lw ev ids local (apply_event (lw.env id) ev local.db) done in
    encoded-delivered jetstream w lw id ev ids b n _ refl changed
    ∙ ap (λ h. record { hub = h; fanout_recv = n.fanout_recv + 1 })
        (ap (deliver_message lw ev ids) (sym same) ∙ sym here)
