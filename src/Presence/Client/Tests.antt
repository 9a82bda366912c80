-- ===== src/Presence/Client/Tests.antt =====
-- The client's theorems at calls that exercise them (internal/presence/client.go).
use go_chat_backend.Common.{
  ◌≡◌, refl, true, false, [], ◌∷◌, arith, replicate, length, if◌then◌else◌, ◌==◌, ◌⊎◌, ℕ,
}
use go_chat_backend.Presence.Breaker.{closed, opened, allow}
use go_chat_backend.Presence.Client.{
  ok, unavailable, canceled, Weather, Client, circuit_open, error, success_answer, call, call_all,
  answers, attempts, finish, book_unanswered,
}
use go_chat_backend.Presence.Client.Booking.{Asked, refused, call-Booked}
use go_chat_backend.Presence.Client.Outage.{abandoned_probe, outage-opens, IsOutage}

-- The service refuses connections, and there is time to try again.
abbrev down : Weather
down = record {
  asked_at = 10;
  reply = λ n. unavailable;
  has_time = λ n. true;
  wakes = λ n. true;
  parent_done = false;
  failed_at = 20;
}

-- The third attempt is answered.
abbrev hiccup : Weather
hiccup = record down { reply = λ n. if n == 3 then ok else unavailable }

abbrev fresh : Client
fresh = record {
  breaker = record {
    threshold = 2;
    open_for = 100;
    state = closed;
    failures = 0;
    opened_at = 0;
    probing = false;
  };
  calls = 0;
  failures = 0;
  retries = 0;
  short_circuited = 0;
}

hiccup_test : (call hiccup fresh).0 ≡ success_answer
unfolding call attempts finish book_unanswered allow
hiccup_test = refl

call-Booked_example :
    (((allow 10 fresh.breaker).1 ≡ false)
      × (call down fresh ≡ refused fresh (allow 10 fresh.breaker).0))
    ⊎ (((allow 10 fresh.breaker).1 ≡ true)
        × ((k : ℕ) × Asked down fresh (allow 10 fresh.breaker).0 k (call down fresh)))
call-Booked_example = call-Booked down fresh

down-IsOutage : IsOutage down
down-IsOutage = record { silent = λ n. refl; waits = refl }

outage-opens_example : (call_all (down ∷ down ∷ []) fresh).breaker.state ≡ opened
outage-opens_example =
    outage-opens (down ∷ down ∷ []) fresh refl refl (omega arith) refl
      (down-IsOutage, (down-IsOutage, tt))

-- The circuit has cooled down, and the caller of the probe closes its tab.
abbrev tripped : Client
tripped = record fresh {
  breaker = record fresh.breaker { state = opened; failures = 2; opened_at = 20 };
}

abbrev closes_tab : Weather
closes_tab = record {
  asked_at = 200;
  reply = λ n. canceled;
  has_time = λ n. true;
  wakes = λ n. true;
  parent_done = true;
  failed_at = 210;
}

let_through : (allow 200 tripped.breaker).1 ≡ true
unfolding allow
let_through = refl

probe_canceled : (call closes_tab tripped).0 ≡ error canceled
unfolding call attempts finish book_unanswered allow
probe_canceled = refl

-- The service is up again, and is not asked.
abbrev up_again : Weather
up_again = record down { asked_at = 900_000; reply = λ n. ok }

abandoned_probe_example :
    answers (up_again ∷ up_again ∷ []) (call closes_tab tripped).1
    ≡ replicate (length (up_again ∷ up_again ∷ [])) circuit_open
abandoned_probe_example =
    abandoned_probe closes_tab (up_again ∷ up_again ∷ []) tripped canceled refl let_through refl
      probe_canceled refl
