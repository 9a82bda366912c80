-- ===== src/Server/RateLimit/Transparent.antt =====
-- The limiter against a specification that forgets nobody (internal/server/ratelimit.go).
use Prim.Native.String.{String}
use go_chat_backend.Common.{
  ℕ, ◌+◌, ◌-◌, ◌*◌, ◌≤◌, min, ◌≡◌, refl, ap, ap₂, ◌∙◌, sym, subst, Bool, true, false, List, [], ◌∷◌,
  arith, leb, if◌then◌else◌, inl, inr, Bool-cases,
}
use go_chat_backend.Common.Assoc.{string_key}
use go_chat_backend.Server.RateLimit.{
  one_token, Bucket, RateLimiter, Call, allow, answers, new_rate_limiter,
}
use go_chat_backend.Server.RateLimit.Window.{Within}
use go_chat_backend.Server.RateLimit.Refill.{
  level, Settled, Settled-later, new_rate_limiter-Settled,
}
use go_chat_backend.Server.RateLimit.Spend.{
  granted-allow, level-allow, allow-Settled, allow_keeps, spent,
}

-- The specification: every caller there can be has a bucket of its own, full at first, and no
-- bucket is ever dropped.
abbrev pub Buckets : Type 0
Buckets = String → Bucket

module _ (rate burst : ℕ) where
  abbrev spec_level : Buckets → String → ℕ → ℕ
  spec_level st key t = min burst ((st key).tokens + (t - (st key).last) * rate)

  abbrev pub all_full : Buckets
  all_full key = record { tokens = burst; last = 0 }

  abbrev spec_spend : ℕ → String → Buckets → Buckets
  spec_spend now key st other =
      if string_key.same key other
      then record { tokens = spent (spec_level st key now); last = now }
      else st other

  pub spec_answers : Buckets → List Call → List Bool
  spec_answers st [] = []
  spec_answers st (c ∷ cs) =
      leb one_token (spec_level st c.key c.at) ∷ spec_answers (spec_spend c.at c.key st) cs

  -- The two agree on what every caller would hold from now on.
  abbrev Agree : ℕ → RateLimiter → Buckets → Type 0
  Agree now l st = (key : String) (t : ℕ) → now ≤ t → level l key t ≡ spec_level st key t

  spend_if :
      (c : Bool) (now t : ℕ) (b : Bucket) {x x' y r' burst' : ℕ}
      → x ≡ x'
      → r' ≡ rate
      → burst' ≡ burst
      → y ≡ min burst (b.tokens + (t - b.last) * rate)
      → (if c then min burst' (spent x + (t - now) * r') else y) ≡ (
          let b' = if c then record { tokens = spent x'; last = now } else b in
          min burst (b'.tokens + (t - b'.last) * rate))
  spend_if true now t b p q r h = cc
  spend_if false now t b p q r h = h

  allow-Agree :
      (l : RateLimiter) (st : Buckets) (now : ℕ) (key : String)
      → l.rate ≡ rate
      → l.burst ≡ burst
      → Settled now l
      → Agree now l st
      → Agree now (allow now key l).0 (spec_spend now key st)
  allow-Agree l st now key r b s h other t k =
      level-allow l now t key other s k
      ∙ spend_if (string_key.same key other) now t (st other) (h key now (omega arith)) r b
          (h other t k)

  answers-Agree :
      (l : RateLimiter) (st : Buckets) (start end : ℕ) (cs : List Call)
      → l.rate ≡ rate
      → l.burst ≡ burst
      → Settled start l
      → Agree start l st
      → Within start cs end
      → answers l cs ≡ spec_answers st cs
  unfolding answers spec_answers
  answers-Agree l st start end [] r b s h w = refl
  answers-Agree l st start end (c ∷ cs) r b s h w =
      let s1 = Settled-later start c.at w.0 s in
      let h1 : Agree c.at l st = λ key t k. h key t (omega (arith, w.0)) in
      let (r', b') = allow_keeps l c.at c.key in
      ap₂ (λ (x : Bool) (xs : List Bool). x ∷ xs)
        (granted-allow l c.at c.key s1 ∙ ap (leb one_token) (h1 c.key c.at (omega arith)))
        (answers-Agree (allow c.at c.key l).0 (spec_spend c.at c.key st) c.at end cs (r' ∙ r)
          (b' ∙ b) (allow-Settled l c.at c.key s1) (allow-Agree l st c.at c.key r b s1 h1) w.1)

  level-new :
      (key : String) (t : ℕ) → level (new_rate_limiter rate burst) key t ≡ spec_level all_full key t
  unfolding level new_rate_limiter go_chat_backend.Common.Assoc.lookup
  level-new key t = omega arith

  -- Dropping buckets and building them anew is not to be seen: over any calls in the order of their
  -- times, the limiter answers as the specification does, which keeps a bucket for everybody.
  pub answers-spec_answers :
      (end : ℕ) (cs : List Call)
      → Within 0 cs end
      → answers (new_rate_limiter rate burst) cs ≡ spec_answers all_full cs
  answers-spec_answers end cs w =
      answers-Agree (new_rate_limiter rate burst) all_full 0 end cs
        (unfold new_rate_limiter in refl) (unfold new_rate_limiter in refl)
        (new_rate_limiter-Settled rate burst) (λ key t k. level-new key t) w
