-- ===== src/Server/RateLimit/Spend.antt =====
-- What one call leaves of each caller's level (internal/server/ratelimit.go).
use Prim.Native.String.{String}
use go_chat_backend.Common.{
  ℕ, ◌/◌, ◌+◌, ◌-◌, ◌*◌, ◌≤◌, min, ◌≡◌, refl, Bool, true, false, Option, some, arith, ltb, leb,
  if◌then◌else◌, inl, inr, Bool-cases, Option-cases, ◌∙◌,
}
use go_chat_backend.Common.Assoc.{string_key, lookup, put, lookup-put, put-Distinct}
use go_chat_backend.Server.RateLimit.{
  one_token, Bucket, RateLimiter, sweep, bucket_of, refill, take_token, allow,
}
use go_chat_backend.Server.RateLimit.Refill.{
  filled, level, Settled, level-sweep, sweep-Settled, sweep_keeps,
}

taken_level :
    (l : RateLimiter) (now : ℕ) (key : String)
    → Settled now l
    → (refill l now (bucket_of l.burst now (lookup key l.buckets))).tokens ≡ level l key now
unfolding refill level
taken_level l now key s = elim (Option-cases (lookup key l.buckets)) [
  | inl new ↦ rw (new, bucket_of) (omega arith)
  | inr (b, old) ↦ rw (old, bucket_of) refl
]

-- The decision looks at nothing but the caller's level.
pub granted-allow :
    (l : RateLimiter) (now : ℕ) (key : String)
    → Settled now l
    → (allow now key l).1.granted ≡ leb one_token (level l key now)
unfolding allow
granted-allow l now key s =
    let s' = sweep-Settled l now s in
    ground (arith, taken_level (sweep now l) now key s', level-sweep l now now key s)

-- What a call leaves of the caller's level.
abbrev pub spent : ℕ → ℕ
spent x = if leb one_token x then x - one_token else x

filled-if :
    (rate burst t : ℕ) (c : Bool) (b : Bucket) (o : Option Bucket)
    → filled rate burst t (if c then some b else o)
      ≡ (if c then min burst (b.tokens + (t - b.last) * rate) else filled rate burst t o)
filled-if rate burst t true b o = refl
filled-if rate burst t false b o = refl

level-put :
    (l : RateLimiter) (t : ℕ) (key other : String) (b : Bucket)
    → level (record l { buckets = put key b l.buckets }) other t ≡ (
        if string_key.same key other
        then min l.burst (b.tokens + (t - b.last) * l.rate)
        else level l other t)
unfolding level
level-put l t key other b =
    rw (lookup-put key other b l.buckets) (filled-if l.rate l.burst t _ b (lookup other l.buckets))

level-take_token :
    (l : RateLimiter) (t : ℕ) (key other : String) (b : Bucket)
    → level (take_token key b l).0 other t ≡ (
        if string_key.same key other
        then min l.burst (spent b.tokens + (t - b.last) * l.rate)
        else level l other t)
unfolding take_token
level-take_token l t key other b = elim (Bool-cases (ltb b.tokens one_token)) [
  | inl short ↦
      let e : spent b.tokens ≡ b.tokens = ground arith in rw (short, e) (level-put l t key other b)
  | inr enough ↦
      let e : spent b.tokens ≡ b.tokens - one_token = ground arith in
      rw (enough, e) (level-put l t key other (record b { tokens = b.tokens - one_token }))
]

refill-last : (l : RateLimiter) (now : ℕ) (b : Bucket) → (refill l now b).last ≡ now
unfolding refill
refill-last l now b = refl

if_cong :
    (c : Bool) {x x' y y' : ℕ} → x ≡ x' → y ≡ y' → (if c then x else y) ≡ (if c then x' else y')
if_cong true p q = p
if_cong false p q = q

levels_agree :
    (t : ℕ) {x x' last now r r' burst burst' : ℕ}
    → x ≡ x'
    → last ≡ now
    → r ≡ r'
    → burst ≡ burst'
    → min burst (spent x + (t - last) * r) ≡ min burst' (spent x' + (t - now) * r')
levels_agree t p q e f = cc

-- A call spends one token of its own caller if there is one, and of nobody else.
pub level-allow :
    (l : RateLimiter) (now t : ℕ) (key other : String)
    → Settled now l
    → now ≤ t
    → level (allow now key l).0 other t ≡ (
        if string_key.same key other
        then min l.burst (spent (level l key now) + (t - now) * l.rate)
        else level l other t)
unfolding allow
level-allow l now t key other s k =
    let swept = sweep now l in
    let s' = sweep-Settled l now s in
    let b = refill swept now (bucket_of swept.burst now (lookup key swept.buckets)) in
    let same_tokens : b.tokens ≡ level l key now =
      taken_level swept now key s' ∙ level-sweep l now now key s (omega arith) in
    let (rate, burst) = sweep_keeps l now in
    level-take_token swept t key other b
    ∙ if_cong (string_key.same key other)
        (levels_agree t same_tokens (refill-last swept now _) rate burst)
        (level-sweep l now t other s k)

put-Settled :
    (l : RateLimiter) (now : ℕ) (key : String) (b : Bucket)
    → b.last ≤ now
    → Settled now l
    → Settled now (record l { buckets = put key b l.buckets })
put-Settled l now key b h s = record {
  distinct = put-Distinct key b l.buckets s.distinct;
  past = λ k c e. ground (arith, lookup-put key k b l.buckets, s.past k c);
}

take_token-Settled :
    (l : RateLimiter) (now : ℕ) (key : String) (b : Bucket)
    → b.last ≤ now
    → Settled now l
    → Settled now (take_token key b l).0
unfolding take_token
take_token-Settled l now key b h s = elim (Bool-cases (ltb b.tokens one_token)) [
  | inl short ↦ rw short (put-Settled l now key b h s)
  | inr enough ↦ rw enough (put-Settled l now key (record b { tokens = b.tokens - one_token }) h s)
]

pub allow-Settled :
    (l : RateLimiter) (now : ℕ) (key : String) → Settled now l → Settled now (allow now key l).0
unfolding allow
allow-Settled l now key s =
    take_token-Settled (sweep now l) now key _ (omega (arith, refill-last (sweep now l) now _))
      (sweep-Settled l now s)

take_token_keeps :
    (l : RateLimiter) (key : String) (b : Bucket)
    → ((take_token key b l).0.rate ≡ l.rate) × ((take_token key b l).0.burst ≡ l.burst)
unfolding take_token
take_token_keeps l key b = ground arith

pub allow_keeps :
    (l : RateLimiter) (now : ℕ) (key : String)
    → ((allow now key l).0.rate ≡ l.rate) × ((allow now key l).0.burst ≡ l.burst)
unfolding allow
allow_keeps l now key =
    let (r, b) = take_token_keeps (sweep now l) key (
      refill (sweep now l) now
        (bucket_of (sweep now l).burst now (lookup key (sweep now l).buckets))) in
    let (r', b') = sweep_keeps l now in (r ∙ r', b ∙ b')

take_token_wait :
    (l : RateLimiter) (key : String) (b : Bucket)
    → (take_token key b l).1.wait
      ≡ (if leb one_token b.tokens then 0 else (one_token - b.tokens) / l.rate)
unfolding take_token
take_token_wait l key b = ground arith

-- The wait, from the caller's level alone.
pub wait-allow :
    (l : RateLimiter) (now : ℕ) (key : String)
    → Settled now l
    → (allow now key l).1.wait
      ≡ (if leb one_token (level l key now) then 0 else (one_token - level l key now) / l.rate)
unfolding allow
wait-allow l now key s =
    let swept = sweep now l in
    let b = refill swept now (bucket_of swept.burst now (lookup key swept.buckets)) in
    let same_tokens : b.tokens ≡ level l key now =
      taken_level swept now key (sweep-Settled l now s)
      ∙ level-sweep l now now key s (omega arith) in
    take_token_wait swept key b ∙ cc (same_tokens, (sweep_keeps l now).0)
