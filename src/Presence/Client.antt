-- ===== src/Presence/Client.antt =====
-- One logical call of the presence service (internal/presence/client.go). The gRPC service, the
-- clock and the contexts are parameters: what each attempt comes back with, and what time does.
pub mod Booking
pub mod Outage
mod Tests
use go_chat_backend.Common.{
  List, [], ◌∷◌, ℕ, zero, suc, ◌+◌, Bool, true, false, not, ◌||◌, if◌then◌else◌,
}
use go_chat_backend.Presence.Breaker.{Breaker, allow, success, failure, new_breaker}

-- The status code of an attempt; `other` stands for the codes that only a server gives.
pub data Status : Type 0 where
  ok unavailable deadline_exceeded canceled other : Status

abbrev pub answered : Status → Bool
answered unavailable = false
answered deadline_exceeded = false
answered canceled = false
answered _ = true

abbrev pub retryable : Status → Bool
retryable unavailable = true
retryable _ = false

-- What happens around one call. The attempts are numbered from 1.
pub record Weather : Type 0 where
  pub asked_at : ℕ
  pub reply : ℕ → Status
  -- the deadline leaves room for the wait after this attempt
  pub has_time : ℕ → Bool
  -- the wait ends before the context does
  pub wakes : ℕ → Bool
  -- the caller's own context has ended
  pub parent_done : Bool
  pub failed_at : ℕ

pub record Client : Type 0 where
  pub breaker : Breaker
  pub calls : ℕ
  pub failures : ℕ
  pub retries : ℕ
  pub short_circuited : ℕ

pub data Answer : Type 0 where
  success_answer circuit_open : Answer
  error : Status → Answer

-- `maxAttempts` less the first attempt.
abbrev pub retries_left : ℕ
retries_left = 2

abbrev pub new_client : Client
new_client = record {
  breaker = new_breaker 5 5_000_000_000;
  calls = 0;
  failures = 0;
  retries = 0;
  short_circuited = 0;
}

-- `record`: a call that nobody answered, unless its caller gave up first.
unfoldable pub book_unanswered : Weather → Client → Client
book_unanswered w c =
    if w.parent_done
    then c
    else record c { breaker = failure w.failed_at c.breaker; failures = c.failures + 1 }

-- The call ends with this status.
unfoldable pub finish : Weather → Status → Client → Answer × Client
finish w ok c = (success_answer, record c { breaker = success c.breaker })
finish w other c = (error other, record c { breaker = success c.breaker })
finish w unavailable c = (error unavailable, book_unanswered w c)
finish w deadline_exceeded c = (error deadline_exceeded, book_unanswered w c)
finish w canceled c = (error canceled, book_unanswered w c)

-- The loop does not go on after this attempt.
abbrev pub stops : Weather → ℕ → Bool
stops w n = not (retryable (w.reply n)) || (not (w.has_time n) || not (w.wakes n))

-- The loop, with the retries that are left.
unfoldable pub attempts : Weather → ℕ → ℕ → Client → Answer × Client
attempts w zero n c = finish w (w.reply n) c
attempts w (suc left) n c =
    let rest = attempts w left (n + 1) (record c { retries = c.retries + 1 }) in
    if stops w n then finish w (w.reply n) c else rest

call_if : Bool → Weather → Client → Answer × Client
call_if false w c = (circuit_open, record c { short_circuited = c.short_circuited + 1 })
call_if true w c = attempts w retries_left 1 (record c { calls = c.calls + 1 })

unfoldable pub call : Weather → Client → Answer × Client
unfolding call_if
call w c = let gate = allow w.asked_at c.breaker in call_if gate.1 w (record c { breaker = gate.0 })

-- Some calls, one after the other: the client at the end, and the answers.
unfoldable pub call_all : List Weather → Client → Client
call_all [] c = c
call_all (w ∷ ws) c = call_all ws (call w c).1

unfoldable pub answers : List Weather → Client → List Answer
answers [] c = []
answers (w ∷ ws) c = (call w c).0 ∷ answers ws (call w c).1
