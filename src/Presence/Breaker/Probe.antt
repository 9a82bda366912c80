-- ===== src/Presence/Breaker/Probe.antt =====
-- Exactly one probe while half-open, and what `State` reports (internal/presence/breaker.go).
use go_chat_backend.Common.{
  ℕ, ◌≡◌, refl, ap, ◌∙◌, Bool, true, false, not, List, [], ◌∷◌, map, arith,
}
use go_chat_backend.Presence.Breaker.{
  Breaker, BreakerState, opened, half_open, Event, allows, succeeds, fails, allow, success, failure,
  step, run, new_breaker, StateName, name_closed, name_open, name_half_open, state_name,
}

-- The circuit is half-open exactly while its probe is in flight.
abbrev pub probes : BreakerState → Bool
probes half_open = true
probes _ = false

abbrev pub IsSound : Breaker → Type 0
IsSound b = b.probing ≡ probes b.state

allow-IsSound :
    (s : BreakerState) (now : ℕ) (b : Breaker) → b.state ≡ s → IsSound b → IsSound (allow now b).0
unfolding allow
allow-IsSound s now b e h = ground arith

failure-IsSound :
    (s : BreakerState) (now : ℕ) (b : Breaker) → b.state ≡ s → IsSound b → IsSound (failure now b)
unfolding failure
failure-IsSound s now b e h = ground arith

step-IsSound : (b : Breaker) (e : Event) → IsSound b → IsSound (step b e)
unfolding step success
step-IsSound b (allows now) h = allow-IsSound b.state now b refl h
step-IsSound b (succeeds now) h = refl
step-IsSound b (fails now) h = failure-IsSound b.state now b refl h

run-IsSound_from : (b : Breaker) (es : List Event) → IsSound b → IsSound (run b es)
unfolding run
run-IsSound_from b [] h = h
run-IsSound_from b (e ∷ es) h = run-IsSound_from (step b e) es (step-IsSound b e h)

-- After any calls on a new breaker, a probe is in flight exactly if the circuit is half-open.
pub run-IsSound :
    (threshold open_for : ℕ) (es : List Event) → IsSound (run (new_breaker threshold open_for) es)
unfolding new_breaker
run-IsSound threshold open_for es = run-IsSound_from _ es refl

half_open_refuses :
    (b : Breaker) (now : ℕ) → b.state ≡ half_open → b.probing ≡ true → (allow now b).0 ≡ b
unfolding allow
half_open_refuses b now s p = ground arith

run-half_open :
    (b : Breaker) (ts : List ℕ) → b.state ≡ half_open → b.probing ≡ true → run b (map allows ts) ≡ b
unfolding run step
run-half_open b [] s p = refl
run-half_open b (t ∷ ts) s p =
    ap (λ c. run c (map allows ts)) (half_open_refuses b t s p) ∙ run-half_open b ts s p

-- Once an open circuit has let a call through, it refuses every further call, at whatever times
-- they come and however many they are, until a success or a failure is recorded.
pub single_probe :
    (b : Breaker) (now : ℕ) (ts : List ℕ) (t : ℕ)
    → b.state ≡ opened
    → (allow now b).1 ≡ true
    → (allow t (run (allow now b).0 (map allows ts))).1 ≡ false
unfolding allow
single_probe b now ts t s g = ground (arith, run-half_open (allow now b).0 ts)

-- What the state's name says of the next call.
abbrev pub granted_by : StateName → Breaker → Bool
granted_by name_closed b = true
granted_by name_open b = false
granted_by name_half_open b = not b.probing

-- In every state that calls can reach, the reported name tells whether the next call gets through:
-- closed lets it, open refuses it, half-open lets it unless a probe is in flight.
pub allow-state_name :
    (b : Breaker) (now : ℕ) → IsSound b → (allow now b).1 ≡ granted_by (state_name now b) b
unfolding allow state_name
allow-state_name b now h = ground arith
