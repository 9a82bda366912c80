-- ===== src/Server/RateLimit.antt =====
-- The token buckets (internal/server/ratelimit.go). A time is a count of nanoseconds on a clock that
-- never runs back, 0 the zero time. A rate is in thousandths of a token a second and tokens are in
-- units of 10 ^ -12, so that a nanosecond adds `rate` units and no rounding is needed; the rounding
-- of float64 is not modelled.
pub mod Refill
pub mod Keys
pub mod Spend
pub mod Transparent
pub mod Window
pub mod RetryAfter
mod Tests
use Prim.Native.String.{String}
use go_chat_backend.Common.{
  ℕ, ◌+◌, ◌-◌, ◌*◌, ◌/◌, ◌<◌, min, max, Bool, true, false, not, Option, none, some, List, [], ◌∷◌,
  ltb, leb, if◌then◌else◌,
}
use go_chat_backend.Common.Assoc.{string_key, lookup, put, retain}

-- One token, in the units of `Bucket.tokens`.
abbrev pub one_token : ℕ
one_token = 1_000_000_000_000

-- One second, in nanoseconds.
abbrev pub second : ℕ
second = 1_000_000_000

abbrev pub sweep_every : ℕ
sweep_every = 60 * second

pub record Bucket : Type 0 where
  pub tokens : ℕ
  pub last : ℕ

pub record RateLimiter : Type 0 where
  pub rate : ℕ
  pub burst : ℕ
  pub buckets : List (String × Bucket)
  pub last_sweep : ℕ

pub new_rate_limiter : ℕ → ℕ → RateLimiter
new_rate_limiter rate burst = record { rate = rate; burst = burst; buckets = []; last_sweep = 0 }

-- The bucket has not refilled all the way.
abbrev keeps : RateLimiter → ℕ → String → Bucket → Bool
keeps l now key b = not (leb l.burst (b.tokens + (now - b.last) * l.rate))

unfoldable pub sweep : ℕ → RateLimiter → RateLimiter
sweep now l =
    if ltb (now - l.last_sweep) sweep_every
    then l
    else record l { last_sweep = now; buckets = retain (keeps l now) l.buckets }

-- The caller's bucket; a new caller starts full.
abbrev pub bucket_of : ℕ → ℕ → Option Bucket → Bucket
bucket_of burst now none = record { tokens = burst; last = now }
bucket_of burst now (some b) = b

unfoldable pub refill : RateLimiter → ℕ → Bucket → Bucket
refill l now b = record { tokens = min l.burst (b.tokens + (now - b.last) * l.rate); last = now }

pub record Answer : Type 0 where
  pub granted : Bool
  pub wait : ℕ

take_token : String → Bucket → RateLimiter → RateLimiter × Answer
take_token key b l =
    if ltb b.tokens one_token
    then (
      record l { buckets = put key b l.buckets },
      record { granted = false; wait = (one_token - b.tokens) / l.rate },
    )
    else (
      record l { buckets = put key (record b { tokens = b.tokens - one_token }) l.buckets },
      record { granted = true; wait = 0 },
    )

unfoldable pub allow : ℕ → String → RateLimiter → RateLimiter × Answer
unfolding take_token
allow now key l =
    let swept = sweep now l in
    take_token key (refill swept now (bucket_of swept.burst now (lookup key swept.buckets))) swept

-- The Retry-After header: whole seconds, rounded up, and never zero.
unfoldable pub retry_after : ℕ → ℕ
retry_after wait = max 1 ((wait + (second - 1)) / second)

pub record Call : Type 0 where
  pub at : ℕ
  pub key : String

-- The limiter over a run of calls: where it ends, and what it answered.
unfoldable pub run : RateLimiter → List Call → RateLimiter
run l [] = l
run l (c ∷ cs) = run (allow c.at c.key l).0 cs

unfoldable pub answers : RateLimiter → List Call → List Bool
answers l [] = []
answers l (c ∷ cs) = (allow c.at c.key l).1.granted ∷ answers (allow c.at c.key l).0 cs
