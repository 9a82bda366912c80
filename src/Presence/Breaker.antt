-- ===== src/Presence/Breaker.antt =====
-- The circuit breaker (internal/presence/breaker.go). A time is a count of nanoseconds and an
-- argument of each call that reads the clock; the mutex makes each call one step.
pub mod Probe
pub mod Cooling
pub mod Threshold
mod Tests
use go_chat_backend.Common.{ℕ, ◌+◌, Bool, true, false, ◌&&◌, List, [], ◌∷◌, ltb, leb, if◌then◌else◌}

pub data BreakerState : Type 0 where
  closed opened half_open : BreakerState

-- The fields that never change come first. `now` is not a field: callers pass the time.
pub record Breaker : Type 0 where
  pub threshold : ℕ
  pub open_for : ℕ
  pub state : BreakerState
  pub failures : ℕ
  pub opened_at : ℕ
  pub probing : Bool

pub new_breaker : ℕ → ℕ → Breaker
new_breaker threshold open_for = record {
  threshold = threshold;
  open_for = open_for;
  state = closed;
  failures = 0;
  opened_at = 0;
  probing = false;
}

-- now - opened_at < open_for, without the subtraction.
abbrev pub cooling : Breaker → ℕ → Bool
cooling b now = ltb now (b.opened_at + b.open_for)

allow_in : BreakerState → ℕ → Breaker → Breaker × Bool
allow_in closed now b = (b, true)
allow_in opened now b =
    if cooling b now then (b, false) else (record b { state = half_open; probing = true }, true)
allow_in half_open now b = if b.probing then (b, false) else (record b { probing = true }, true)

unfoldable pub allow : ℕ → Breaker → Breaker × Bool
unfolding allow_in
allow now b = allow_in b.state now b

unfoldable pub success : Breaker → Breaker
success b = record b { state = closed; failures = 0; probing = false }

-- The failures counted with the circuit not half-open.
count_failure : ℕ → Breaker → Breaker
count_failure now b =
    if leb b.threshold (b.failures + 1)
    then record b { state = opened; failures = b.failures + 1; opened_at = now; probing = false }
    else record b { failures = b.failures + 1; probing = false }

failure_in : BreakerState → ℕ → Breaker → Breaker
unfolding count_failure
failure_in half_open now b = record b { state = opened; opened_at = now; probing = false }
failure_in closed now b = count_failure now b
failure_in opened now b = count_failure now b

unfoldable pub failure : ℕ → Breaker → Breaker
unfolding failure_in
failure now b = failure_in b.state now b

-- The names that `String` gives the states.
pub data StateName : Type 0 where
  name_closed name_open name_half_open : StateName

pub string : BreakerState → StateName
string opened = name_open
string half_open = name_half_open
string closed = name_closed

report_in : BreakerState → ℕ → Breaker → StateName
unfolding string
report_in opened now b = if cooling b now then name_open else string half_open
report_in closed now b = string closed
report_in half_open now b = string half_open

pub state_name : ℕ → Breaker → StateName
unfolding report_in
state_name now b = report_in b.state now b

-- What a breaker's users do to it, each at a time.
pub data Event : Type 0 where
  allows succeeds fails : ℕ → Event

pub step : Breaker → Event → Breaker
step b (allows now) = (allow now b).0
step b (succeeds now) = success b
step b (fails now) = failure now b

pub run : Breaker → List Event → Breaker
run b [] = b
run b (e ∷ es) = run (step b e) es
