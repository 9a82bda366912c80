-- ===== src/Outbox/Election/Handover.antt =====
-- How the relay passes from one node to another (internal/outbox/relay.go and
-- internal/database/outbox.go).
use go_chat_backend.Common.{ℕ, ◌≡◌, false, none, some, [], ◌∷◌, arith}
use go_chat_backend.Outbox.Election.{asking, leading, Cluster, tries, disconnects, step, run}

-- What a node finds in a cluster from which another one has gone: itself as it was, and the lock free.
record Freed (j : ℕ) (before after : Cluster) : Type 0 where
  lock : after.lock ≡ none
  phase : after.phases j ≡ before.phases j
  session : after.next_session ≡ before.next_session

-- A leader whose connection is lost goes on leading, and the next node that asks leads too.
pub two_leaders :
    (c : Cluster) (i j s : ℕ)
    → c.phases i ≡ leading s
    → c.lock ≡ some s
    → c.phases j ≡ asking
    → ((run (disconnects i ∷ tries j false ∷ []) c).phases i ≡ leading s)
      × ((run (disconnects i ∷ tries j false ∷ []) c).phases j ≡ leading c.next_session)
unfolding run step
two_leaders c i j s leads held asks = rw (leads, held, asks) (ground arith)
