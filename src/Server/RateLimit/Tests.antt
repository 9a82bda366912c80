-- ===== src/Server/RateLimit/Tests.antt =====
-- The limiter's theorems at calls that exercise them (internal/server/ratelimit.go).
use go_chat_backend.Common.{ℕ, ◌≡◌, ◌+◌, ◌*◌, refl, true, false, List, [], ◌∷◌, arith, subst, ◌<◌}
use go_chat_backend.Server.RateLimit.{
  RateLimiter, Call, new_rate_limiter, allow, answers, one_token, retry_after, second, refill,
  sweep,
}
use go_chat_backend.Common.Assoc.{lookup, put, retain}
use go_chat_backend.Server.RateLimit.Refill.{Settled, Settled-later, new_rate_limiter-Settled}
use go_chat_backend.Server.RateLimit.Spend.{allow-Settled}
use go_chat_backend.Server.RateLimit.Window.{Within}
use go_chat_backend.Server.RateLimit.Transparent.{spec_answers, all_full, answers-spec_answers}
use go_chat_backend.Server.RateLimit.RetryAfter.{retry-granted}

-- One token a second, two at most.
abbrev burst : ℕ
burst = 2 * one_token

abbrev limiter : RateLimiter
limiter = record { rate = 1000; burst = burst; buckets = []; last_sweep = 0 }

abbrev call_at : ℕ → Call
call_at t = record { at = t; key = "ip:1" }

abbrev three_calls : List Call
three_calls = call_at 5 ∷ call_at 6 ∷ call_at 7 ∷ []

three_calls-Within : Within 0 three_calls 10
three_calls-Within = (omega arith, (omega arith, (omega arith, omega arith)))

answers_test : answers limiter three_calls ≡ true ∷ true ∷ false ∷ []
unfolding answers allow refill sweep lookup put retain
answers_test = refl

new_lem : new_rate_limiter 1000 burst ≡ limiter
unfolding new_rate_limiter
new_lem = refl

answers-spec_answers_example :
    answers (new_rate_limiter 1000 burst) three_calls
    ≡ spec_answers 1000 burst (all_full 1000 burst) three_calls
answers-spec_answers_example = answers-spec_answers 1000 burst 10 three_calls three_calls-Within

-- A caller that has spent its only token, and asks again at once.
abbrev single : RateLimiter
single = record { rate = 1000; burst = one_token; buckets = []; last_sweep = 0 }

abbrev spent_out : RateLimiter
spent_out = record single { buckets = ("ip:1", record { tokens = 0; last = 5 }) ∷ [] }

spent_out_lem : (allow 5 "ip:1" single).0 ≡ spent_out
unfolding allow refill sweep lookup put retain
spent_out_lem = refl

spent_out-Settled : Settled 5 spent_out
spent_out-Settled = subst (Settled 5) spent_out_lem (
    allow-Settled single 5 "ip:1" (
      Settled-later 0 5 (omega arith)
        (subst (Settled 0) new_single (new_rate_limiter-Settled 1000 one_token))))
  where
    new_single : new_rate_limiter 1000 one_token ≡ single
    new_single = unfold new_rate_limiter in refl

refused_again : (allow 5 "ip:1" spent_out).1.granted ≡ false
unfolding allow refill sweep lookup put retain
refused_again = refl

told_to_wait : 5 + retry_after (allow 5 "ip:1" spent_out).1.wait * second < 6 + second
unfolding allow refill sweep lookup put retain retry_after
told_to_wait = omega arith

retry-granted_example : (allow (6 + second) "ip:1" (allow 5 "ip:1" spent_out).0).1.granted ≡ true
retry-granted_example =
    retry-granted spent_out 5 (6 + second) "ip:1" spent_out-Settled (omega arith) (omega arith)
      refused_again told_to_wait
