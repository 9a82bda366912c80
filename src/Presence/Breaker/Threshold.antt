-- ===== src/Presence/Breaker/Threshold.antt =====
-- How many failures open the circuit (internal/presence/breaker.go).
use go_chat_backend.Common.{
  ℕ, suc, ◌+◌, ◌≤◌, ◌<◌, ◌≡◌, refl, subst, sym, true, false, ltb, if◌then◌else◌, List, [], ◌∷◌, map,
  arith, length,
}
use native.Mathlib.Decide.{dec_lt}
use go_chat_backend.Presence.Breaker.{Breaker, closed, opened, fails, success, failure, step, run}

pub failure_below :
    (b : Breaker) (t : ℕ)
    → b.state ≡ closed
    → b.failures + 1 < b.threshold
    → failure t b ≡ record b { failures = b.failures + 1; probing = false }
unfolding failure
failure_below b t s h = ground arith

pub failure_reached :
    (b : Breaker) (t : ℕ)
    → b.threshold ≤ b.failures + 1
    → ((failure t b).state ≡ opened) × ((failure t b).threshold ≤ (failure t b).failures + 1)
unfolding failure
failure_reached b t h = ground arith

run-fails_reached :
    (b : Breaker) (ts : List ℕ)
    → b.state ≡ opened
    → b.threshold ≤ b.failures + 1
    → (run b (map fails ts)).state ≡ opened
unfolding run step
run-fails_reached b [] s h = s
run-fails_reached b (t ∷ ts) s h =
    let r = failure_reached b t h in run-fails_reached (failure t b) ts r.0 r.1

-- The state that `k` failures in a row leave behind.
abbrev After : Breaker → ℕ → Breaker → Type 0
After b k c =
    (b.failures + k < b.threshold → c.state ≡ closed)
    × (b.threshold ≤ b.failures + k → c.state ≡ opened)

run-fails_After :
    (b : Breaker) (ts : List ℕ)
    → b.state ≡ closed
    → b.failures < b.threshold
    → After b (length ts) (run b (map fails ts))
unfolding run step
run-fails_After b [] s h = (λ p. s, λ p. absurd (omega arith))
run-fails_After b (t ∷ ts) s h = elim (dec_lt (b.failures + 1) b.threshold) [
  | yes below ↦
      let c = record b { failures = b.failures + 1; probing = false } in
      let ih = run-fails_After c ts s below in
      subst (λ d. After b (suc (length ts)) (run d (map fails ts)))
        (sym (failure_below b t s below)) (λ p. ih.0 (omega arith), λ p. ih.1 (omega arith))
  | no reached ↦
      let r = failure_reached b t (omega arith) in
      (λ p. absurd (omega arith), λ p. run-fails_reached (failure t b) ts r.0 r.1)
]

-- From a new breaker, or one whose last call succeeded, a run of failed calls leaves the circuit
-- closed if it is shorter than `threshold`, and open otherwise.
pub run-fails :
    (b : Breaker) (ts : List ℕ)
    → 0 < b.threshold
    → (run (success b) (map fails ts)).state
      ≡ (if ltb (length ts) b.threshold then closed else opened)
run-fails b ts h =
    unfold success in
    let r = run-fails_After (success b) ts refl h in
    elim (dec_lt (length ts) b.threshold) [
      | yes below ↦
          let e : ltb (length ts) b.threshold ≡ true = ground arith in rw e (r.0 (omega arith))
      | no reached ↦
          let e : ltb (length ts) b.threshold ≡ false = ground arith in rw e (r.1 (omega arith))
    ]
