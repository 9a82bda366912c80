-- ===== src/Presence/Breaker/Cooling.antt =====
-- While the circuit is open (internal/presence/breaker.go).
use go_chat_backend.Common.{
  ℕ, ◌+◌, ◌<◌, ◌≡◌, refl, ap, ◌∙◌, Bool, false, List, [], ◌∷◌, map, arith, leb,
}
use go_chat_backend.Presence.Breaker.{Breaker, opened, half_open, allows, allow, failure, step, run}

-- Every time lies before `end`.
abbrev pub AllBefore : ℕ → List ℕ → Type 0
AllBefore end [] = Unit {0}
AllBefore end (t ∷ ts) = (t < end) × AllBefore end ts

cooling_step :
    (b : Breaker) (t : ℕ) → b.state ≡ opened → t < b.opened_at + b.open_for → allow t b ≡ (b, false)
unfolding allow
cooling_step b t s h = ground arith

cooling_run :
    (b : Breaker) (ts : List ℕ)
    → b.state ≡ opened
    → AllBefore (b.opened_at + b.open_for) ts
    → run b (map allows ts) ≡ b
unfolding run step
cooling_run b [] s h = refl
cooling_run b (t ∷ ts) s h =
    ap (λ (r : Breaker × Bool). run r.0 (map allows ts)) (cooling_step b t s h.0)
    ∙ cooling_run b ts s h.1

-- An open circuit refuses every call before `open_for` has passed since it opened, whatever calls
-- were refused before it, and lets the first call through that comes at or after that moment.
pub cooling_exact :
    (b : Breaker) (ts : List ℕ) (t : ℕ)
    → b.state ≡ opened
    → AllBefore (b.opened_at + b.open_for) ts
    → (allow t (run b (map allows ts))).1 ≡ leb (b.opened_at + b.open_for) t
cooling_exact b ts t s h = rw (cooling_run b ts s h) (unfold allow in ground arith)

-- A failed probe opens the circuit again for a full `open_for` from the failure.
pub failed_probe :
    (b : Breaker) (now t : ℕ)
    → b.state ≡ half_open
    → t < now + b.open_for
    → (allow t (failure now b)).1 ≡ false
unfolding allow failure
failed_probe b now t s h = ground arith
