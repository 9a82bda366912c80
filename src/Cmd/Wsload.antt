-- ===== src/Cmd/Wsload.antt =====
-- What the load tool computes by itself (cmd/wsload/main.go): its percentiles, the size of its
-- messages, and its waits when it is told to slow down. A run-time panic has no result.
-- Durations are 64-bit integers in two's complement, given by their bits.
pub mod Rank
pub mod Patience
mod Tests
use go_chat_backend.Common.{
  ℕ, zero, suc, ◌+◌, ◌-◌, ◌*◌, ◌/◌, ◌^◌, Bool, Option, none, some, List, [], ◌∷◌, ◌++◌, ltb, leb,
  if◌then◌else◌, ◌==◌, length, replicate, min, ◌%◌,
}

-- sorted[i]
abbrev pub nth : ℕ → List ℕ → Option ℕ
nth i [] = none
nth zero (x ∷ xs) = some x
nth (suc i) (x ∷ xs) = nth i xs

-- sorted[i-1], for an `i` that starts at 1
abbrev pub before_last : ℕ → List ℕ → Option ℕ
before_last zero xs = none
before_last (suc i) xs = nth i xs

-- Durations of which it is given the sorted list; of no samples the percentile is 0.
unfoldable pub percentile : List ℕ → ℕ → Option ℕ
percentile [] p = some 0
percentile (x ∷ xs) p =
    let i = (length (x ∷ xs) * p + 99) / 100 in before_last (min i (length (x ∷ xs))) (x ∷ xs)

-- A text is the list of its bytes.
unfoldable pub pad : List ℕ → ℕ → List ℕ
pad prefix size =
    if leb size (length prefix) then prefix else prefix ++ replicate (size - length prefix) b'x'

abbrev pub max_attempts : ℕ
max_attempts = 8

-- In nanoseconds.
abbrev pub max_backoff : ℕ
max_backoff = 10 * 1_000_000_000

-- What a request comes to: an answer, an error, or a 429 with the wait that it asks for.
pub data Sent : Type 0 where
  replied broke : Sent
  too_many : ℕ → Sent

-- The attempts from the `n`-th on, with the `left` after it; `sends` is what each comes to, and
-- `jitter` the random part of a wait. The result is the last answer, the attempts made and the time
-- spent waiting.
pub record Posted : Type 0 where
  pub answer : Sent
  pub attempts : ℕ
  pub waited : ℕ

-- What is slept before the attempt after the `n`-th: the wait that is asked for, doubled from attempt
-- to attempt with wrap-around, and capped. A negative one stays below the cap, and a sleep that is
-- negative with its random part ends at once.
abbrev pub capped : ℕ → ℕ → ℕ
capped asked jitter =
    if ltb asked 9_223_372_036_854_775_808
    then min asked max_backoff + jitter
    else asked + jitter - 18_446_744_073_709_551_616

unfoldable pub wait_of : ℕ → ℕ → ℕ → ℕ
wait_of retry_after jitter n =
    capped ((retry_after * 2 ^ (n - 1)) % 18_446_744_073_709_551_616) jitter

-- After a wait it goes `again`.
abbrev pub after_send : ℕ → ℕ → ℕ → (ℕ → Posted) → Sent → Posted
after_send n jitter waited again replied = record {
  answer = replied;
  attempts = n;
  waited = waited;
}
after_send n jitter waited again broke = record { answer = broke; attempts = n; waited = waited }
after_send n jitter waited again (too_many retry_after) =
    again (waited + wait_of retry_after jitter n)

unfoldable pub post_from : (ℕ → Sent) → (ℕ → ℕ) → ℕ → ℕ → ℕ → Posted
post_from sends jitter zero n waited = record { answer = sends n; attempts = n; waited = waited }
post_from sends jitter (suc left) n waited =
    after_send n (jitter n) waited (λ spent. post_from sends jitter left (n + 1) spent) (sends n)

abbrev pub post_json : (ℕ → Sent) → (ℕ → ℕ) → Posted
post_json sends jitter = post_from sends jitter (max_attempts - 1) 1 0
