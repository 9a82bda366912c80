-- ===== src/Server/RateLimit/Window.antt =====
-- How many calls of one caller a limiter lets through (internal/server/ratelimit.go).
use Prim.Native.String.{String}
use go_chat_backend.Common.{
  ℕ, ◌+◌, ◌-◌, ◌*◌, ◌≤◌, ◌≡◌, ◌&&◌, List, [], ◌∷◌, arith, ap, subst, if◌then◌else◌,
}
use go_chat_backend.Common.Assoc.{string_key}
use go_chat_backend.Server.RateLimit.{one_token, RateLimiter, Call, allow, run}
use go_chat_backend.Server.RateLimit.Refill.{
  elapsed_split, level-later, level-le-burst, level, Settled, Settled-later,
}
use go_chat_backend.Server.RateLimit.Spend.{granted-allow, level-allow, allow-Settled, allow_keeps}

-- The calls come in the order of their times, between `start` and `end`.
abbrev pub Within : ℕ → List Call → ℕ → Type 0
Within start [] end = start ≤ end
Within start (c ∷ cs) end = (start ≤ c.at) × Within c.at cs end

-- How many calls of this caller are granted.
unfoldable pub granted_to : String → RateLimiter → List Call → ℕ
granted_to key l [] = 0
granted_to key l (c ∷ cs) =
    (if string_key.same c.key key && (allow c.at c.key l).1.granted then 1 else 0)
    + granted_to key (allow c.at c.key l).0 cs

Within-le : (start : ℕ) (cs : List Call) (end : ℕ) → Within start cs end → start ≤ end
Within-le start [] end h = h
Within-le start (c ∷ cs) end h = omega (arith, Within-le c.at cs end h.1)

-- One call takes a whole token off its caller's level if it is granted, and adds to nobody's.
step_spends :
    (l : RateLimiter) (now : ℕ) (other key : String)
    → Settled now l
    → (if string_key.same other key && (allow now other l).1.granted then 1 else 0) * one_token
        + level (allow now other l).0 key now
      ≤ level l key now
step_spends l now other key s = ground (
  arith,
  level-allow l now now other key s,
  granted-allow l now other s,
  string_key.same_iff other key,
  ap (λ k. level l k now) {x = other} {y = key},
)

window_budget :
    (l : RateLimiter) (start end : ℕ) (key : String) (cs : List Call)
    → Settled start l
    → Within start cs end
    → granted_to key l cs * one_token + level (run l cs) key end
      ≤ level l key start + (end - start) * l.rate
unfolding granted_to run
window_budget l start end key [] s h = omega (arith, level-later l start end key s h)
window_budget l start end key (c ∷ cs) s h =
    let s1 = Settled-later start c.at h.0 s in
    let l' = (allow c.at c.key l).0 in
    let keep : l'.rate ≡ l.rate = (allow_keeps l c.at c.key).0 in
    let ih : granted_to key l' cs * one_token + level (run l' cs) key end
        ≤ level l' key c.at + (end - c.at) * l.rate =
      subst
        (λ r.
          granted_to key l' cs * one_token + level (run l' cs) key end
          ≤ level l' key c.at + (end - c.at) * r)
        keep (window_budget l' c.at end key cs (allow-Settled l c.at c.key s1) h.1) in
    omega (
      arith,
      ih,
      step_spends l c.at c.key key s1,
      level-later l start c.at key s h.0,
      elapsed_split start c.at end l.rate h.0 (Within-le c.at cs end h.1),
    )

-- In any window of time, whatever the other callers do, one caller is granted no more than a burst
-- and what the rate adds during the window.
pub granted_to-window :
    (l : RateLimiter) (start end : ℕ) (key : String) (cs : List Call)
    → Settled start l
    → Within start cs end
    → granted_to key l cs * one_token ≤ l.burst + (end - start) * l.rate
granted_to-window l start end key cs s h =
    omega (arith, window_budget l start end key cs s h, level-le-burst l key start)
