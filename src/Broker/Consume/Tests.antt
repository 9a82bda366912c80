-- ===== src/Broker/Consume/Tests.antt =====
-- The theorems on deliveries at a message that fails (internal/broker/consume.go).
use go_chat_backend.Common.{◌≡◌, refl, true, false, [], ◌∷◌, not, ◌==◌, ℕ}
use go_chat_backend.Broker.Consume.{
  Weather, Broker, terminated, apply_failed, deliveries, deliveries_from, deliver_one,
  handle_unread, dead_letter, nakked, ack_wait, decode_envelope,
}
use go_chat_backend.Broker.Consume.Fate.{Ended, deliveries-Ended}

abbrev failing : Weather
failing = record {
  has_metadata = true;
  parses = true;
  applies = false;
  dead_letters = true;
  ack_arrives = true;
  term_arrives = true;
  survives = true;
}

abbrev fresh : Broker
fresh = record { redelivered = 0; unread_done = 0; dead_lettered = 0; dead = [] }

-- Four times it is put off, then it goes to the dead letters.
failing_test : deliveries (λ n. failing) fresh ≡ (
  terminated,
  record {
    redelivered = 4;
    unread_done = 0;
    dead_lettered = 1;
    dead = record { reason = apply_failed; delivered = 5 } ∷ [];
  },
)
unfolding deliveries_from deliver_one handle_unread dead_letter
failing_test = refl

deliveries-Ended_example : Ended (λ n. failing) [] (deliveries (λ n. failing) fresh)
deliveries-Ended_example =
    deliveries-Ended (λ n. failing) fresh (λ k. record { metadata = refl; dead_letters = refl })
      refl

abbrev hopeless : Weather
hopeless = record failing { dead_letters = false }

-- The dead-letter stream takes nothing: after the fifth delivery, the last, the handler asks for
-- another, and the message is neither done nor a dead letter.
hopeless_test :
    deliveries (λ n. hopeless) fresh ≡ (nakked ack_wait, record fresh { redelivered = 4 })
unfolding deliveries_from deliver_one handle_unread dead_letter
hopeless_test = refl

-- The bytes cannot be read and the first Term is lost: two dead letters.
abbrev unreadable : ℕ → Weather
unreadable n = record failing { parses = false; term_arrives = not (n == 1) }

unreadable_test : deliveries unreadable fresh ≡ (
  terminated,
  record {
    redelivered = 1;
    unread_done = 0;
    dead_lettered = 2;
    dead =
        record { reason = decode_envelope; delivered = 1 }
        ∷ record { reason = decode_envelope; delivered = 2 }
        ∷ [];
  },
)
unfolding deliveries_from deliver_one handle_unread dead_letter
unreadable_test = refl
