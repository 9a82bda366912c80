-- ===== src/Cmd/Wsload/Patience.antt =====
-- How long the load tool waits when the server says that it is too much (cmd/wsload/main.go).
use go_chat_backend.Common.{ℕ, zero, suc, ◌+◌, ◌*◌, ◌≤◌, ◌<◌, arith}
use go_chat_backend.Cmd.Wsload.{
  Sent, replied, broke, too_many, Posted, capped, wait_of, after_send, post_from, post_json,
}

-- The random part of a wait is below half a second.
abbrev pub IsJitter : (ℕ → ℕ) → Type 0
IsJitter jitter = (n : ℕ) → jitter n < 500_000_000

-- No more than `tries` attempts and `time` of waiting.
abbrev pub IsWithin : ℕ → ℕ → Posted → Type 0
IsWithin tries time p = (p.attempts ≤ tries) × (p.waited ≤ time)

wait_of-le :
    (retry_after jitter n : ℕ)
    → jitter < 500_000_000
    → wait_of retry_after jitter n ≤ 10_500_000_000
unfolding wait_of
wait_of-le retry_after jitter n h = below _ (omega arith)
  where
    below : (asked : ℕ) → asked < 18_446_744_073_709_551_616 → capped asked jitter ≤ 10_500_000_000
    below asked k = ground (arith, h, k)

after_send-IsWithin :
    (n jitter waited tries time : ℕ) (again : ℕ → Posted) (s : Sent)
    → n ≤ tries
    → waited ≤ time
    → jitter < 500_000_000
    → ((spent : ℕ) → spent ≤ waited + 10_500_000_000 → IsWithin tries time (again spent))
    → IsWithin tries time (after_send n jitter waited again s)
after_send-IsWithin n jitter waited tries time again replied h k j goes_on = (h, k)
after_send-IsWithin n jitter waited tries time again broke h k j goes_on = (h, k)
after_send-IsWithin n jitter waited tries time again (too_many retry_after) h k j goes_on =
    goes_on (waited + wait_of retry_after jitter n)
      (omega (arith, wait_of-le retry_after jitter n j))

post_from-IsWithin :
    (sends : ℕ → Sent) (jitter : ℕ → ℕ) (left n waited : ℕ)
    → IsJitter jitter
    → IsWithin (n + left) (waited + left * 10_500_000_000) (post_from sends jitter left n waited)
unfolding post_from
post_from-IsWithin sends jitter zero n waited h = (omega arith, omega arith)
post_from-IsWithin sends jitter (suc left) n waited h =
    after_send-IsWithin n (jitter n) waited (n + suc left) (waited + suc left * 10_500_000_000)
      (λ spent. post_from sends jitter left (n + 1) spent) (sends n) (omega arith) (omega arith)
      (h n)
      (λ spent bound.
        let ih = post_from-IsWithin sends jitter left (n + 1) spent h in
        (omega (arith, ih.0), omega (arith, ih.1, bound)))

-- Whatever the server answers, and whatever wait it asks for, be it one that wraps around when it is
-- doubled, a request of the load tool is over after
-- at most eight attempts, and after at most 73.5 seconds of waiting.
pub post_json-IsWithin :
    (sends : ℕ → Sent) (jitter : ℕ → ℕ)
    → IsJitter jitter
    → IsWithin 8 73_500_000_000 (post_json sends jitter)
post_json-IsWithin sends jitter h =
    let w = post_from-IsWithin sends jitter 7 1 0 h in (omega (arith, w.0), omega (arith, w.1))
