-- ===== src/Broker/Consume.antt =====
-- The work of the shared consumer (internal/broker/consume.go). JetStream, the work of a message and
-- the dead-letter stream are parameters: what happens around each delivery of the message.
pub mod Verdicts
pub mod Fate
mod Tests
use go_chat_backend.Common.{
  ℕ, zero, suc, ◌+◌, ◌*◌, Bool, true, false, ◌&&◌, List, [], ◌∷◌, ◌++◌, ltb, leb, if◌then◌else◌,
}

abbrev pub max_deliver : ℕ
max_deliver = 5

-- In nanoseconds.
abbrev pub ack_wait : ℕ
ack_wait = 30 * 1_000_000_000

-- One delivery: whether the message has metadata and its bytes parse, whether the work succeeds,
-- whether the dead-letter stream takes a copy and says so (it does neither or both), and whether an ack or a Term gets through. A node may
-- die before a delivery had any effect; one that dies later has an ack or a Term that does not get
-- through.
pub record Weather : Type 0 where
  pub has_metadata : Bool
  pub parses : Bool
  pub applies : Bool
  pub dead_letters : Bool
  pub ack_arrives : Bool
  pub term_arrives : Bool
  pub survives : Bool

-- What the handler tells JetStream, which hears nothing of an ack or a Term that is lost, and nothing
-- from a node that dies.
pub data Verdict : Type 0 where
  acked ack_lost terminated term_lost no_answer : Verdict
  nakked : ℕ → Verdict

pub data Reason : Type 0 where
  decode_envelope apply_failed : Reason

pub record DeadLetter : Type 0 where
  pub reason : Reason
  pub delivered : ℕ

pub record Broker : Type 0 where
  pub redelivered : ℕ
  pub unread_done : ℕ
  pub dead_lettered : ℕ
  pub dead : List DeadLetter

-- `msg.Term()`, whose error is ignored.
abbrev pub term : Weather → Verdict
term w = if w.term_arrives then terminated else term_lost

-- The copy first, then the end of the message.
unfoldable pub dead_letter : Weather → ℕ → Reason → Broker → Verdict × Broker
dead_letter w n reason b =
    if w.dead_letters
    then (
      term w,
      record b {
        dead_lettered = b.dead_lettered + 1;
        dead = b.dead ++ record { reason = reason; delivered = n } ∷ [];
      },
    )
    else (nakked ack_wait, b)

abbrev pub count_redelivery : ℕ → Broker → Broker
count_redelivery n b = if ltb 1 n then record b { redelivered = b.redelivered + 1 } else b

abbrev pub after_apply : Weather → ℕ → Broker → Verdict × Broker
after_apply w n b =
    if w.applies
    then if w.ack_arrives
      then (acked, record b { unread_done = b.unread_done + 1 })
      else (ack_lost, b)
    else if leb max_deliver n
    then dead_letter w n apply_failed b
    else (nakked (n * 1_000_000_000), b)

-- A message whose metadata is there.
abbrev pub after_metadata : Weather → ℕ → Broker → Verdict × Broker
after_metadata w n b = if w.parses then after_apply w n b else dead_letter w n decode_envelope b

-- The `n`-th delivery of the message.
unfoldable pub handle_unread : Weather → ℕ → Broker → Verdict × Broker
handle_unread w n b =
    if w.has_metadata then after_metadata w n (count_redelivery n b) else (term w, b)

-- JetStream hands the message out again.
abbrev pub comes_back : Verdict → Bool
comes_back acked = false
comes_back terminated = false
comes_back term_lost = true
comes_back no_answer = true
comes_back ack_lost = true
comes_back (nakked delay) = true

-- A delivery to a node that may die.
unfoldable pub deliver_one : Weather → ℕ → Broker → Verdict × Broker
deliver_one w n b = if w.survives then handle_unread w n b else (no_answer, b)

-- The deliveries of one message, from the `n`-th on, with `left` of them at most.
unfoldable pub deliveries_from : (ℕ → Weather) → ℕ → ℕ → Broker → Verdict × Broker
deliveries_from ws zero n b = deliver_one (ws n) n b
deliveries_from ws (suc left) n b =
    let now = deliver_one (ws n) n b in
    let later = deliveries_from ws left (n + 1) now.1 in if comes_back now.0 then later else now

-- `MaxDeliver` of the consumer: no delivery after the fifth.
abbrev pub deliveries : (ℕ → Weather) → Broker → Verdict × Broker
deliveries ws b = deliveries_from ws 4 1 b
