-- ===== src/Presence/Client/Outage.antt =====
-- Calls during an outage (internal/presence/client.go).
use native.Mathlib.Decide.{dec_lt}
use go_chat_backend.Common.{
  ℕ, zero, suc, ◌+◌, ◌<◌, ◌≡◌, refl, ap, sym, ◌∙◌, true, false, List, [], ◌∷◌, arith, replicate,
  length, inl, inr, Bool-cases,
}
use go_chat_backend.Presence.Breaker.{Breaker, closed, opened, half_open, allow, failure}
use go_chat_backend.Presence.Breaker.Threshold.{failure_below, failure_reached}
use go_chat_backend.Presence.Client.{
  Status, ok, unavailable, deadline_exceeded, canceled, other, answered, Weather, Client, Answer,
  circuit_open, error, finish, book_unanswered, attempts, call, call_all, answers, retries_left,
  stops,
}
use go_chat_backend.Presence.Client.Booking.{answer_of, heard, call-Booked}

refused_call :
    (w : Weather) (c : Client)
    → allow w.asked_at c.breaker ≡ (c.breaker, false)
    → call w c ≡ (circuit_open, record c { short_circuited = c.short_circuited + 1 })
unfolding call
refused_call w c h = rw h refl

probing-allow :
    (now : ℕ) (b : Breaker) → b.state ≡ half_open → b.probing ≡ true → allow now b ≡ (b, false)
unfolding allow
probing-allow now b s p = ground arith

stuck :
    (ws : List Weather) (c : Client)
    → c.breaker.state ≡ half_open
    → c.breaker.probing ≡ true
    → answers ws c ≡ replicate (length ws) circuit_open
unfolding answers
stuck [] c s p = refl
stuck (w ∷ ws) c s p =
    let c' = record c { short_circuited = c.short_circuited + 1 } in
    let e = refused_call w c (probing-allow w.asked_at c.breaker s p) in
    ap (λ (r : Answer × Client). r.0 ∷ answers ws r.1) e
    ∙ ap (λ xs. circuit_open ∷ xs) (stuck ws c' s p)

opened-allow :
    (now : ℕ) (b : Breaker)
    → b.state ≡ opened
    → (allow now b).1 ≡ true
    → ((allow now b).0.state ≡ half_open) × ((allow now b).0.probing ≡ true)
unfolding allow
opened-allow now b s h = ground arith

heard_gone :
    (w : Weather) (told s : Status) (b : Breaker)
    → answer_of told ≡ error s
    → answered s ≡ false
    → w.parent_done ≡ true
    → heard w told b ≡ b
heard_gone w ok s b e silent gone = absurd (cc)
heard_gone w unavailable s b e silent gone = rw gone refl
heard_gone w deadline_exceeded s b e silent gone = rw gone refl
heard_gone w canceled s b e silent gone = rw gone refl
heard_gone w other s b e silent gone = absurd (cc)

-- When the call that an open circuit let through as its probe gets no answer and its caller has
-- gone, nobody frees the probe's place: every later call, however many and however late, is refused
-- without asking the service.
pub abandoned_probe :
    (w : Weather) (ws : List Weather) (c : Client) (s : Status)
    → c.breaker.state ≡ opened
    → (allow w.asked_at c.breaker).1 ≡ true
    → w.parent_done ≡ true
    → (call w c).0 ≡ error s
    → answered s ≡ false
    → answers ws (call w c).1 ≡ replicate (length ws) circuit_open
abandoned_probe w ws c s o h gone got silent =
    let kept : (call w c).1.breaker ≡ (allow w.asked_at c.breaker).0 = elim (call-Booked w c) [
      | inl (out, _) ↦ absurd (cc)
      | inr (_, (k, e)) ↦ e.breaker ∙ heard_gone w (w.reply k) s _ (sym e.answer ∙ got) silent gone
    ] in
    let half = opened-allow w.asked_at c.breaker o h in
    stuck ws (call w c).1 (ap (λ (b : Breaker). b.state) kept ∙ half.0)
      (ap (λ (b : Breaker). b.probing) kept ∙ half.1)

-- Nobody answers any attempt of the call, and its caller waits.
pub record IsOutage (w : Weather) : Type 0 where
  pub silent : (n : ℕ) → answered (w.reply n) ≡ false
  pub waits : w.parent_done ≡ false

finish-outage :
    (w : Weather) (s : Status) (c : Client)
    → answered s ≡ false
    → w.parent_done ≡ false
    → (finish w s c).1.breaker ≡ failure w.failed_at c.breaker
unfolding finish book_unanswered
finish-outage w s c h k = ground arith

attempts-outage :
    (w : Weather) (left n : ℕ) (c : Client)
    → IsOutage w
    → (attempts w left n c).1.breaker ≡ failure w.failed_at c.breaker
unfolding attempts
attempts-outage w zero n c o = finish-outage w (w.reply n) c (o.silent n) o.waits
attempts-outage w (suc left) n c o =
    let ih = attempts-outage w left (n + 1) (record c { retries = c.retries + 1 }) o in
    let here = finish-outage w (w.reply n) c (o.silent n) o.waits in
    elim (Bool-cases (stops w n)) [ inl over ↦ rw over here | inr on ↦ rw on ih ]

closed-allow : (now : ℕ) (b : Breaker) → b.state ≡ closed → allow now b ≡ (b, true)
unfolding allow
closed-allow now b s = ground arith

call-outage :
    (w : Weather) (c : Client)
    → IsOutage w
    → c.breaker.state ≡ closed
    → (call w c).1.breaker ≡ failure w.failed_at c.breaker
unfolding call
call-outage w c o s =
    rw (closed-allow w.asked_at c.breaker s)
      (attempts-outage w retries_left 1 (record c { calls = c.calls + 1 }) o)

-- All the calls fall into an outage.
abbrev pub AllOutage : List Weather → Type 0
AllOutage [] = Unit {0}
AllOutage (w ∷ ws) = IsOutage w × AllOutage ws

opens_after :
    (ws : List Weather) (c : Client) (b : Breaker)
    → c.breaker ≡ b
    → b.state ≡ closed
    → b.failures < b.threshold
    → b.failures + length ws ≡ b.threshold
    → AllOutage ws
    → (call_all ws c).breaker.state ≡ opened
unfolding call_all
opens_after [] c b e s h k o = absurd (omega arith)
opens_after (w ∷ ws) c b e s h k o =
    let told : (call w c).1.breaker ≡ failure w.failed_at b =
      call-outage w c o.0 (ap (λ (d : Breaker). d.state) e ∙ s) ∙ ap (failure w.failed_at) e in
    elim (dec_lt (b.failures + 1) b.threshold) [
      | yes below ↦
          opens_after ws (call w c).1 (record b { failures = b.failures + 1; probing = false })
            (told ∙ failure_below b w.failed_at s below) s below (omega arith) o.1
      | no reached ↦
          last ws (call w c).1 (failure w.failed_at b) told
            (failure_reached b w.failed_at (omega arith)).0 (omega arith)
    ]
  where
    last :
        (vs : List Weather) (d : Client) (x : Breaker)
        → d.breaker ≡ x
        → x.state ≡ opened
        → length vs ≡ 0
        → (call_all vs d).breaker.state ≡ opened
    last [] d x p q z = ap (λ (y : Breaker). y.state) p ∙ q
    last (v ∷ vs) d x p q z = absurd (omega arith)

-- As many calls in a row without an answer as the threshold says, whatever their statuses and retries
-- are and while their callers wait, open a closed circuit that had counted no failure.
pub outage-opens :
    (ws : List Weather) (c : Client)
    → c.breaker.state ≡ closed
    → c.breaker.failures ≡ 0
    → 0 < c.breaker.threshold
    → length ws ≡ c.breaker.threshold
    → AllOutage ws
    → (call_all ws c).breaker.state ≡ opened
outage-opens ws c s z h n o = opens_after ws c c.breaker refl s (omega arith) (omega arith) o
