-- ===== src/Outbox/Election.antt =====
-- Which node is the relay (Run of internal/outbox/relay.go, with TryOutboxLock and Release of
-- internal/database/outbox.go). The advisory lock belongs to a database session; each question for it
-- opens a session of its own. What the nodes and their connections do comes as events, in any order.
pub mod Single
pub mod Handover
mod Tests
use go_chat_backend.Common.{
  ℕ, ◌+◌, Bool, true, false, Option, none, some, List, [], ◌∷◌, if◌then◌else◌, ◌==◌,
}

-- Where the loop of Run stands: about to ask, asleep for `leaderRetry`, in runLeader with the session
-- of its lock, ended, or ended with an unlock that failed: then the session goes back to the pool
-- with the lock.
pub data Phase : Type 0 where
  asking asleep ended : Phase
  leading kept : ℕ → Phase

pub record Cluster : Type 0 where
  pub phases : ℕ → Phase
  pub lock : Option ℕ
  pub next_session : ℕ

abbrev pub initial : Cluster
initial = record { phases = λ i. asking; lock = none; next_session = 0 }

abbrev pub set_phase : ℕ → Phase → Cluster → Cluster
set_phase i p c = record c { phases = λ j. if i == j then p else c.phases j }

-- pg_try_advisory_lock does not wait.
abbrev pub ask : ℕ → Option ℕ → Cluster → Cluster
ask i none c =
    set_phase i (leading c.next_session)
      (record c { lock = some c.next_session; next_session = c.next_session + 1 })
ask i (some s) c = set_phase i asleep (record c { next_session = c.next_session + 1 })

-- The question fails, or is answered.
abbrev pub try_outbox_lock : ℕ → Bool → Cluster → Cluster
try_outbox_lock i true c = set_phase i asleep c
try_outbox_lock i false c = ask i c.lock c

-- The session gives the lock back, if it has it.
abbrev pub freed : ℕ → Option ℕ → Option ℕ
freed s none = none
freed s (some t) = if s == t then none else some t

abbrev pub let_go : ℕ → Cluster → Cluster
let_go s c = record c { lock = freed s c.lock }

-- `Release` by a relay that comes out of runLeader: the unlock has no effect, which is only logged, or the
-- lock is given back.
abbrev pub release : ℕ → ℕ → Bool → Cluster → Cluster
release i s true c = set_phase i (kept s) c
release i s false c = set_phase i ended (let_go s c)

pub data Event : Type 0 where
  tries ends : ℕ → Bool → Event
  wakes dies disconnects : ℕ → Event

abbrev pub try_at : Phase → ℕ → Bool → Cluster → Cluster
try_at asking i fails c = try_outbox_lock i fails c
try_at p i fails c = c

abbrev pub wake_at : Phase → ℕ → Cluster → Cluster
wake_at asleep i c = set_phase i asking c
wake_at p i c = c

-- The context ends: a leader comes out of runLeader and releases its lock.
abbrev pub end_at : Phase → ℕ → Bool → Cluster → Cluster
end_at (leading s) i fails c = release i s fails c
end_at (kept s) i fails c = c
end_at p i fails c = set_phase i ended c

-- A process that dies takes its connections along, and what they lock.
abbrev pub die_at : Phase → ℕ → Cluster → Cluster
die_at (leading s) i c = set_phase i ended (let_go s c)
die_at (kept s) i c = set_phase i ended (let_go s c)
die_at p i c = set_phase i ended c

-- The connection of the lock dies. Nothing tells the leader.
abbrev pub disconnect_at : Phase → ℕ → Cluster → Cluster
disconnect_at (leading s) i c = let_go s c
disconnect_at (kept s) i c = set_phase i ended (let_go s c)
disconnect_at p i c = c

unfoldable pub step : Event → Cluster → Cluster
step (tries i fails) c = try_at (c.phases i) i fails c
step (wakes i) c = wake_at (c.phases i) i c
step (ends i fails) c = end_at (c.phases i) i fails c
step (dies i) c = die_at (c.phases i) i c
step (disconnects i) c = disconnect_at (c.phases i) i c

unfoldable pub run : List Event → Cluster → Cluster
run [] c = c
run (e ∷ es) c = run es (step e c)
