-- ===== src/Outbox/Election/Tests.antt =====
-- The theorems on the relay's election at runs that exercise them (internal/outbox/relay.go).
use go_chat_backend.Common.{ℕ, ◌≡◌, refl, false, true, some, List, [], ◌∷◌}
use go_chat_backend.Outbox.Election.{leading, Event, initial, tries, wakes, disconnects, step, run}
use go_chat_backend.Outbox.Election.Single.{single_leader}
use go_chat_backend.Outbox.Election.Handover.{two_leaders}

-- Node 0 fails to ask, node 1 gets the lock, node 2 is refused, and node 0 asks again.
abbrev one_relay : List Event
one_relay = tries 0 true ∷ tries 1 false ∷ tries 2 false ∷ wakes 0 ∷ tries 0 false ∷ []

single_leader_example : let n : ℕ = 1 in (n ≡ n) × ((run one_relay initial).lock ≡ some 0)
unfolding run step
single_leader_example = single_leader one_relay 1 1 0 0 _ refl refl

-- As one_relay, but node 0 has only woken.
abbrev one_awake : List Event
one_awake = tries 0 true ∷ tries 1 false ∷ wakes 0 ∷ []

two_leaders_example :
    ((run (disconnects 1 ∷ tries 0 false ∷ []) (run one_awake initial)).phases 1 ≡ leading 0)
    × ((run (disconnects 1 ∷ tries 0 false ∷ []) (run one_awake initial)).phases 0 ≡ leading 1)
unfolding run step
two_leaders_example = two_leaders (run one_awake initial) 1 0 0 refl refl refl
