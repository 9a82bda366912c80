-- ===== src/Server/RateLimit/Refill.antt =====
-- The level of a caller's bucket: what it would hold at a later time (internal/server/ratelimit.go).
use Prim.Native.String.{String}
use go_chat_backend.Common.{
  ℕ, ◌+◌, ◌-◌, ◌*◌, ◌≤◌, min, ◌≡◌, refl, Bool, Option, none, some, arith, ltb, inl, inr, Bool-cases,
  sym, ◌∙◌,
}
use go_chat_backend.Common.Assoc.{
  string_key, passing, lookup, Distinct, lookup-retain, retain-Distinct,
}
use go_chat_backend.Server.RateLimit.{
  sweep_every, Bucket, RateLimiter, new_rate_limiter, keeps, sweep,
}

-- What the caller's bucket would hold at time `t`; no bucket counts as a full one.
abbrev pub filled : ℕ → ℕ → ℕ → Option Bucket → ℕ
filled rate burst t none = burst
filled rate burst t (some b) = min burst (b.tokens + (t - b.last) * rate)

unfoldable pub level : RateLimiter → String → ℕ → ℕ
level l key t = filled l.rate l.burst t (lookup key l.buckets)

-- Every bucket was last touched at `now` or before, and no key has two.
pub record Settled (now : ℕ) (l : RateLimiter) : Type 0 where
  pub distinct : Distinct l.buckets
  pub past : (key : String) (b : Bucket) → lookup key l.buckets ≡ some b → b.last ≤ now

pub Settled-later : {l : RateLimiter} (now t : ℕ) → now ≤ t → Settled now l → Settled t l
Settled-later {l} now t h s = record {
  distinct = s.distinct;
  past = λ k b e. omega (arith, s.past k b e);
}

pub new_rate_limiter-Settled : (rate burst : ℕ) → Settled 0 (new_rate_limiter rate burst)
unfolding new_rate_limiter lookup
new_rate_limiter-Settled rate burst = record { distinct = tt; past = λ k b e. cc }

-- Time passes in two parts.
pub elapsed_split : (a b c r : ℕ) → a ≤ b → b ≤ c → (c - a) * r ≡ (b - a) * r + (c - b) * r
elapsed_split a b c r h k = let e : c - a ≡ (b - a) + (c - b) = omega arith in rw e (omega arith)

pub filled_later :
    (rate burst tokens last now t : ℕ)
    → last ≤ now
    → now ≤ t
    → min burst (tokens + (t - last) * rate)
      ≡ min burst (min burst (tokens + (now - last) * rate) + (t - now) * rate)
filled_later rate burst tokens last now t h k = omega (arith, elapsed_split last now t rate h k)

filled_full :
    (rate burst tokens last now t : ℕ)
    → last ≤ now
    → now ≤ t
    → burst ≤ tokens + (now - last) * rate
    → min burst (tokens + (t - last) * rate) ≡ burst
filled_full rate burst tokens last now t h k f = omega (arith, elapsed_split last now t rate h k)

swept_passing :
    (l : RateLimiter) (now t : ℕ) (key : String) (o : Option Bucket)
    → ((b : Bucket) → o ≡ some b → b.last ≤ now)
    → now ≤ t
    → filled l.rate l.burst t (passing (keeps l now) key o) ≡ filled l.rate l.burst t o
swept_passing l now t key none p k = refl
swept_passing l now t key (some b) p k =
    ground (arith, p b refl, filled_full l.rate l.burst b.tokens b.last now t)

-- A sweep changes no caller's level.
pub level-sweep :
    (l : RateLimiter) (now t : ℕ) (key : String)
    → Settled now l
    → now ≤ t
    → level (sweep now l) key t ≡ level l key t
unfolding sweep level
level-sweep l now t key s k = elim (Bool-cases (ltb (now - l.last_sweep) sweep_every)) [
  | inl early ↦ rw early
  | inr due ↦
      rw (due, lookup-retain (keeps l now) key l.buckets s.distinct)
        (swept_passing l now t key (lookup key l.buckets) (s.past key) k)
]

passing-some :
    (p : String → Bucket → Bool) (key : String) (o : Option Bucket) {b : Bucket}
    → passing p key o ≡ some b
    → o ≡ some b
passing-some p key none h = cc
passing-some p key (some c) h = ground arith

pub sweep-Settled : (l : RateLimiter) (now : ℕ) → Settled now l → Settled now (sweep now l)
unfolding sweep
sweep-Settled l now s = elim (Bool-cases (ltb (now - l.last_sweep) sweep_every)) [
  | inl early ↦ rw early s
  | inr due ↦ rw due (record {
    distinct = retain-Distinct (keeps l now) l.buckets s.distinct;
    past = λ key b e. s.past key b (
        passing-some (keeps l now) key (lookup key l.buckets)
          (sym (lookup-retain (keeps l now) key l.buckets s.distinct) ∙ e));
  })
]

pub sweep_keeps :
    (l : RateLimiter) (now : ℕ) → ((sweep now l).rate ≡ l.rate) × ((sweep now l).burst ≡ l.burst)
unfolding sweep
sweep_keeps l now = ground arith

filled-later :
    (rate burst start t : ℕ) (o : Option Bucket)
    → ((b : Bucket) → o ≡ some b → b.last ≤ start)
    → start ≤ t
    → filled rate burst t o ≤ filled rate burst start o + (t - start) * rate
filled-later rate burst start t none p k = omega arith
filled-later rate burst start t (some b) p k =
    omega (arith, filled_later rate burst b.tokens b.last start t (p b refl) k)

-- A level grows by no more than the rate allows.
pub level-later :
    (l : RateLimiter) (start t : ℕ) (key : String)
    → Settled start l
    → start ≤ t
    → level l key t ≤ level l key start + (t - start) * l.rate
unfolding level
level-later l start t key s k =
    filled-later l.rate l.burst start t (lookup key l.buckets) (s.past key) k

filled-le-burst : (rate burst t : ℕ) (o : Option Bucket) → filled rate burst t o ≤ burst
filled-le-burst rate burst t none = omega arith
filled-le-burst rate burst t (some b) = omega arith

pub level-le-burst : (l : RateLimiter) (key : String) (t : ℕ) → level l key t ≤ l.burst
unfolding level
level-le-burst l key t = filled-le-burst l.rate l.burst t (lookup key l.buckets)
