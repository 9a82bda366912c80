-- ===== src/Presence/Client/Booking.antt =====
-- What a call tells the breaker and counts (internal/presence/client.go).
use go_chat_backend.Common.{
  ℕ, zero, suc, ◌+◌, ◌≤◌, ◌<◌, ◌≡◌, ◌⊎◌, refl, arith, if◌then◌else◌, inl, inr, Bool-cases, true,
  false, ◌==◌, ==→eq, subst,
}
use go_chat_backend.Presence.Breaker.{Breaker, allow, success, failure}
use go_chat_backend.Presence.Client.{
  Status, ok, unavailable, deadline_exceeded, canceled, other, answered, Weather, Client, Answer,
  success_answer, circuit_open, error, book_unanswered, finish, stops, attempts, call,
}

-- What the caller gets, the breaker hears and the counter of failures grows by after an attempt that
-- came back with this status.
abbrev pub answer_of : Status → Answer
answer_of ok = success_answer
answer_of unavailable = error unavailable
answer_of deadline_exceeded = error deadline_exceeded
answer_of canceled = error canceled
answer_of other = error other

abbrev pub heard : Weather → Status → Breaker → Breaker
heard w s b = if answered s then success b else if w.parent_done then b else failure w.failed_at b

abbrev pub unanswered : Weather → Status → ℕ
unanswered w s = if answered s then 0 else if w.parent_done then 0 else 1

-- The loop ends at the `k`-th attempt, when it starts at the `n`-th with `left` after it.
record Ended (w : Weather) (left n : ℕ) (c : Client) (k : ℕ) (after : Answer × Client)
    : Type 0 where
  from : n ≤ k
  until : k ≤ n + left
  went_on : (m : ℕ) → n ≤ m → m < k → stops w m ≡ false
  over : (stops w k ≡ true) ⊎ (k ≡ n + left)
  answer : after.0 ≡ answer_of (w.reply k)
  breaker : after.1.breaker ≡ heard w (w.reply k) c.breaker
  failures : after.1.failures ≡ c.failures + unanswered w (w.reply k)
  calls : after.1.calls ≡ c.calls
  short_circuited : after.1.short_circuited ≡ c.short_circuited
  retries : after.1.retries + n ≡ c.retries + k

finish-told :
    (w : Weather) (s : Status) (c : Client)
    → ((finish w s c).0 ≡ answer_of s)
      × ((finish w s c).1.breaker ≡ heard w s c.breaker)
      × ((finish w s c).1.failures ≡ c.failures + unanswered w s)
unfolding finish book_unanswered
finish-told w s c = ground arith

finish-kept :
    (w : Weather) (s : Status) (c : Client)
    → ((finish w s c).1.calls ≡ c.calls)
      × ((finish w s c).1.short_circuited ≡ c.short_circuited)
      × ((finish w s c).1.retries ≡ c.retries)
unfolding finish book_unanswered
finish-kept w s c = ground arith

finish-Ended :
    (w : Weather) (left n : ℕ) (c : Client)
    → (stops w n ≡ true) ⊎ (n ≡ n + left)
    → Ended w left n c n (finish w (w.reply n) c)
finish-Ended w left n c over =
    let told = finish-told w (w.reply n) c in
    let kept = finish-kept w (w.reply n) c in
    record {
      from = omega arith;
      until = omega arith;
      went_on = λ m a b. absurd (omega (arith, a, b));
      over = over;
      answer = told.0;
      breaker = told.1;
      failures = told.2;
      calls = kept.0;
      short_circuited = kept.1;
      retries = omega (arith, kept.2);
    }

attempts-Ended :
    (w : Weather) (left n : ℕ) (c : Client) → (k : ℕ) × Ended w left n c k (attempts w left n c)
unfolding attempts
attempts-Ended w zero n c = (n, finish-Ended w 0 n c (inr (omega arith)))
attempts-Ended w (suc left) n c = elim (Bool-cases (stops w n)) [
  | inl over ↦ rw over (n, finish-Ended w (suc left) n c (inl over))
  | inr on ↦
      let ih = attempts-Ended w left (n + 1) (record c { retries = c.retries + 1 }) in
      let e = ih.1 in
      rw on (
        ih.0,
        record {
          from = omega (arith, e.from);
          until = omega (arith, e.until);
          went_on = λ m a b. elim (Bool-cases (n == m)) [
            | inl same ↦ subst (λ m. stops w m ≡ false) (==→eq n m same) on
            | inr later ↦ e.went_on m (ground (arith, later, a)) b
          ];
          over = elim e.over [ inl s ↦ inl s | inr s ↦ inr (omega (arith, s)) ];
          answer = e.answer;
          breaker = e.breaker;
          failures = e.failures;
          calls = e.calls;
          short_circuited = e.short_circuited;
          retries = omega (arith, e.retries);
        },
      )
]

-- A call that the circuit lets through, from the client before and the breaker after the question for
-- it: it ends at the first attempt that stops the loop, or at the third.
pub record Asked (w : Weather) (c : Client) (b : Breaker) (k : ℕ) (after : Answer × Client)
    : Type 0 where
  pub first : 1 ≤ k
  pub last : k ≤ 3
  pub went_on : (m : ℕ) → 1 ≤ m → m < k → stops w m ≡ false
  pub over : (stops w k ≡ true) ⊎ (k ≡ 3)
  pub answer : after.0 ≡ answer_of (w.reply k)
  pub breaker : after.1.breaker ≡ heard w (w.reply k) b
  pub failures : after.1.failures ≡ c.failures + unanswered w (w.reply k)
  pub calls : after.1.calls ≡ c.calls + 1
  pub short_circuited : after.1.short_circuited ≡ c.short_circuited
  pub retries : after.1.retries + 1 ≡ c.retries + k

-- A call that it refuses.
abbrev pub refused : Client → Breaker → Answer × Client
refused c b = (circuit_open, record c { breaker = b; short_circuited = c.short_circuited + 1 })

-- A call that the circuit refuses asks nobody, tells the breaker nothing and is counted as refused. Any
-- other call ends at the first of its attempts, at most three, after which the loop does not go on. The
-- caller gets what this attempt came back with; the breaker is told of a success exactly if its status
-- is one that the service answered with, of a failure if nobody answered and the caller still waits,
-- and of nothing otherwise; and the counters grow by one call, by that failure, and by a retry for each
-- attempt before it.
pub call-Booked :
    (w : Weather) (c : Client)
    → (((allow w.asked_at c.breaker).1 ≡ false)
        × (call w c ≡ refused c (allow w.asked_at c.breaker).0))
      ⊎ (((allow w.asked_at c.breaker).1 ≡ true)
          × ((k : ℕ) × Asked w c (allow w.asked_at c.breaker).0 k (call w c)))
unfolding call
call-Booked w c = elim (Bool-cases (allow w.asked_at c.breaker).1) [
  | inr out ↦ inl (out, rw out refl)
  | inl passed ↦
      let ih =
        attempts-Ended w 2 1
          (record c { breaker = (allow w.asked_at c.breaker).0; calls = c.calls + 1 }) in
      let e = ih.1 in
      inr (
        passed,
        rw passed (
          ih.0,
          record {
            first = e.from;
            last = omega (arith, e.until);
            went_on = e.went_on;
            over = e.over;
            answer = e.answer;
            breaker = e.breaker;
            failures = e.failures;
            calls = e.calls;
            short_circuited = e.short_circuited;
            retries = e.retries;
          },
        ),
      )
]
