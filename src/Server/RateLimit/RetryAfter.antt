-- ===== src/Server/RateLimit/RetryAfter.antt =====
-- What the Retry-After header promises (internal/server/ratelimit.go).
use Prim.Native.String.{String}
use native.Mathlib.Nat.{div-add-mod, mod-lt}
use go_chat_backend.Common.{
  ℕ, ◌+◌, ◌-◌, ◌*◌, ◌/◌, ◌≤◌, ◌<◌, min, ◌≡◌, ◌∙◌, ap, sym, true, false, arith, leb, if◌then◌else◌,
}
use go_chat_backend.Common.Assoc.{string_key, same_refl}
use go_chat_backend.Server.RateLimit.{one_token, second, RateLimiter, allow, retry_after}
use go_chat_backend.Server.RateLimit.Refill.{level, Settled, Settled-later}
use go_chat_backend.Server.RateLimit.Spend.{
  granted-allow, wait-allow, level-allow, allow-Settled, spent,
}

-- Enough nanoseconds make up for what is missing, rounded down, and one more.
wait_covers : (short rate w : ℕ) → 0 < rate → short / rate < w → short ≤ w * rate
wait_covers short rate w h k = grind (arith, div-add-mod short rate, mod-lt)

retry_after-le : (wait : ℕ) → wait ≤ retry_after wait * second
unfolding retry_after
retry_after-le wait = omega arith

-- A caller that is refused, and comes back once Retry-After has passed and the part of a nanosecond
-- that the wait was rounded down by, is granted, if nobody used its bucket in between and the
-- bucket can hold a token at all.
pub retry-granted :
    (l : RateLimiter) (now t : ℕ) (key : String)
    → Settled now l
    → 0 < l.rate
    → one_token ≤ l.burst
    → (allow now key l).1.granted ≡ false
    → now + retry_after (allow now key l).1.wait * second < t
    → (allow t key (allow now key l).0).1.granted ≡ true
retry-granted l now t key s p q h k =
    let x = level l key now in
    let l' = (allow now key l).0 in
    let low : leb one_token x ≡ false = sym (granted-allow l now key s) ∙ h in
    let wait : (allow now key l).1.wait ≡ (one_token - x) / l.rate =
      wait-allow l now key s ∙ ap (λ c. if c then 0 else (one_token - x) / l.rate) low in
    let after : now ≤ t = omega arith in
    let refilled : level l' key t ≡ min l.burst (spent x + (t - now) * l.rate) =
      level-allow l now t key key s after
      ∙ ap (λ c. if c then min l.burst (spent x + (t - now) * l.rate) else level l key t)
          (same_refl key) in
    let unspent : spent x ≡ x = ap (λ c. if c then x - one_token else x) low in
    let long : (one_token - x) / l.rate < t - now =
      omega (arith, wait, retry_after-le (allow now key l).1.wait) in
    let covered = wait_covers (one_token - x) l.rate (t - now) p long in
    let full : leb one_token (level l' key t) ≡ true = ground (arith, refilled, unspent, covered) in
    granted-allow l' t key (Settled-later now t after (allow-Settled l now key s)) ∙ full
