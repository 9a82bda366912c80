-- ===== src/Presence/Breaker/Tests.antt =====
-- The breaker's theorems at calls that exercise them (internal/presence/breaker.go).
use go_chat_backend.Common.{◌≡◌, refl, true, false, [], ◌∷◌}
use go_chat_backend.Presence.Breaker.{
  Breaker, fails, new_breaker, allow, failure, opened, run, step,
}

-- Three failures at 10, 20 and 30 open the circuit for 100.
abbrev tripped : Breaker
tripped = record {
  threshold = 3;
  open_for = 100;
  state = opened;
  failures = 3;
  opened_at = 30;
  probing = false;
}

run_test : run (new_breaker 3 100) (fails 10 ∷ fails 20 ∷ fails 30 ∷ []) ≡ tripped
unfolding run step failure new_breaker
run_test = refl

let_through : (allow 130 tripped).1 ≡ true
unfolding allow
let_through = refl
