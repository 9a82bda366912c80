-- ===== src/Broker/Publish/Stream.antt =====
-- What one Publish does to the stream (internal/broker/broker.go), and so what rounds of the relay do
-- to it (internal/outbox/relay.go).

use go_chat_backend.Common.{
  ℕ, ◌≡◌, refl, ap, sym, subst, ◌∙◌, Bool, true, false, ◌||◌, Option, none, some, List, [], ◌∷◌,
  ◌++◌, arith, inl, inr, append-nil, append_assoc,
}
use go_chat_backend.Event.{MessageCreated}
use go_chat_backend.Outbox.Relay.Carried.{Carrier}
use go_chat_backend.Broker.Publish.{
  Bytes, encode_envelope, msg_id, Stored, has_message, JetStream, Publisher, Wiring,
  after_publish_msg, outgoing, publish_encoded, broker_publish,
}

has_message-append :
    (id : List ℕ) (ms ns : List Stored)
    → has_message id (ms ++ ns) ≡ (has_message id ms || has_message id ns)
has_message-append id [] ns = refl
has_message-append id (m ∷ ms) ns = ground (arith, has_message-append id ms ns)

-- The stream has taken more messages.
pub record Grows (ms ns : List Stored) : Type 0 where
  pub news : List Stored
  pub grown : ns ≡ ms ++ news

pub Grows-refl : (ms : List Stored) → Grows ms ms
Grows-refl ms = record { news = []; grown = sym (append-nil ms) }

pub Grows-trans : (ks ms ns : List Stored) → Grows ks ms → Grows ms ns → Grows ks ns
Grows-trans ks ms ns g h = record {
  news = g.news ++ h.news;
  grown = h.grown ∙ ap (λ l. l ++ h.news) g.grown ∙ append_assoc ks g.news h.news;
}

pub has_message-Grows :
    (id : List ℕ) (ms ns : List Stored)
    → Grows ms ns
    → has_message id ms ≡ true
    → has_message id ns ≡ true
has_message-Grows id ms ns g h =
    ap (has_message id) g.grown ∙ has_message-append id ms g.news ∙ rw h refl

module _ {S : Type 0} (jetstream : JetStream S) where
  publish_msg-Grows :
      (m : Stored) (s : S)
      → Grows (jetstream.stored s) (jetstream.stored (jetstream.publish_msg m s).1)
  publish_msg-Grows m s =
      let before = jetstream.stored s in
      elim (jetstream.stored-publish_msg m s) [
        | inl same ↦ subst (Grows before) (sym same) (Grows-refl before)
        | inr more ↦ subst (Grows before) (sym more) (record { news = m ∷ []; grown = refl })
      ]

module _ {S : Type 0} (jetstream : JetStream S) (w : Wiring) where
  pub after-js :
      (b : Publisher S) (answer : Bool × S)
      → (after_publish_msg jetstream w b answer).1.js ≡ answer.1
  after-js b (true, s) = refl
  after-js b (false, s) = refl

  after-none :
      (b : Publisher S) (answer : Bool × S)
      → (after_publish_msg jetstream w b answer).0 ≡ none
      → answer.0 ≡ true
  after-none b (true, s) h = refl
  after-none b (false, s) h = absurd (cc)

  pub encoded-Grows :
      (id : ℕ) (ev : MessageCreated) (b : Publisher S) (payload : Option Bytes)
      → Grows
          (jetstream.stored b.js)
          (jetstream.stored (publish_encoded jetstream w id ev b payload).1.js)
  encoded-Grows id ev b none = Grows-refl (jetstream.stored b.js)
  encoded-Grows id ev b (some payload) =
      let m = outgoing jetstream w id ev payload in
      subst (λ s. Grows (jetstream.stored b.js) (jetstream.stored s))
        (sym (after-js b (jetstream.publish_msg m b.js))) (publish_msg-Grows jetstream m b.js)

  pub encoded-has :
      (id : ℕ) (ev : MessageCreated) (b : Publisher S) (payload : Option Bytes)
      → (publish_encoded jetstream w id ev b payload).0 ≡ none
      → has_message
          (msg_id id)
          (jetstream.stored (publish_encoded jetstream w id ev b payload).1.js)
        ≡ true
  encoded-has id ev b none h = absurd (cc)
  encoded-has id ev b (some payload) h =
      let m = outgoing jetstream w id ev payload in
      let answer = jetstream.publish_msg m b.js in
      ap (λ s. has_message (msg_id id) (jetstream.stored s)) (after-js b answer)
      ∙ jetstream.acked-publish_msg m b.js (after-none b answer h)

  -- The broker's publisher: the stream grows, and has a message of each row that it has accepted.
  unfoldable pub streaming : Carrier (broker_publish jetstream w)
  unfolding broker_publish
  streaming = record {
    Moves = λ b b'. Grows (jetstream.stored b.js) (jetstream.stored b'.js);
    Has = λ b id ev. has_message (msg_id id) (jetstream.stored b.js) ≡ true;
    Admits = λ id ev. Unit {0};
    stays = λ b. Grows-refl (jetstream.stored b.js);
    joins = λ b b' b'' g h. Grows-trans _ _ _ g h;
    keeps = λ b b' id ev g h. has_message-Grows (msg_id id) _ _ g h;
    moved = λ id ev ids b a.
        encoded-Grows id ev b
          (encode_envelope (record { event = ev; user_ids = ids; from = w.node_id }));
    finished = λ id ev ids b a h.
        encoded-has id ev b
          (encode_envelope (record { event = ev; user_ids = ids; from = w.node_id })) h;
  }
