-- ===== src/Ws/Hub.antt =====
-- The hub of the sockets of a node (internal/ws/hub.go). The run goroutine takes one request at a
-- time, so each request is a step; a call of Close is two, since nothing keeps another call out between
-- them. A send on a closed channel and a second close of a channel panic, and then the step has no
-- result.
pub mod Loops
pub mod Delivery
pub mod Steps
mod Tests
use go_chat_backend.Common.{
  ℕ, ◌+◌, ◌-◌, Bool, true, false, not, ◌&&◌, ◌||◌, Option, none, some, List, [], ◌∷◌, ◌++◌, ltb,
  if◌then◌else◌, ◌==◌, length, map,
}
use go_chat_backend.Common.Rows.{select, find, update}

abbrev pub send_buffer : ℕ
send_buffer = 16

abbrev pub broadcast_buffer : ℕ
broadcast_buffer = 256

-- A Client. The map of the hub holds the sockets that are registered: those of a user are its entry.
-- A socket stays here when it leaves the map, since its pumps still hold its channel.
pub record Socket (P : Type 0) : Type 0 where
  pub id : ℕ
  pub user_id : ℕ
  pub is_registered : Bool
  pub send : List P
  pub is_closed : Bool

pub record Envelope (P : Type 0) : Type 0 where
  pub user_ids : List ℕ
  pub payload : P

-- The counters that the run goroutine keeps.
pub record Counters : Type 0 where
  pub open_count : ℕ
  pub sent : ℕ
  pub dropped : ℕ

pub record Hub (P : Type 0) : Type 0 where
  pub sockets : List (Socket P)
  pub broadcast : List (Envelope P)
  pub is_done : Bool
  -- the calls of Close that have found `done` open and not closed it yet
  pub closing : ℕ
  pub counters : Counters
  pub shed : ℕ
  pub next_id : ℕ

infixl 5 ◌>>=◌
abbrev pub ◌>>=◌ : {A B : Type 0} → Option A → (A → Option B) → Option B
none >>= f = none
some a >>= f = f a

abbrev pub pure : {A : Type 0} → A → Option A
pure a = some a

abbrev pub one_less : Counters → Counters
one_less n = record n { open_count = n.open_count - 1 }

abbrev pub is_empty : List ℕ → Bool
is_empty [] = true
is_empty (u ∷ us) = false

module _ {P : Type 0} where
  abbrev pub new_hub : Hub P
  new_hub = record {
    sockets = [];
    broadcast = [];
    is_done = false;
    closing = 0;
    counters = record { open_count = 0; sent = 0; dropped = 0 };
    shed = 0;
    next_id = 0;
  }

  abbrev pub new_socket : ℕ → ℕ → Socket P
  new_socket id user_id = record {
    id = id;
    user_id = user_id;
    is_registered = true;
    send = [];
    is_closed = false;
  }

  -- `Add` and `add`; a hub that is closing takes nobody.
  unfoldable pub add : ℕ → Hub P → Hub P
  add user_id h = if h.is_done then h else record h {
    sockets = h.sockets ++ new_socket h.next_id user_id ∷ [];
    counters = record h.counters { open_count = h.counters.open_count + 1 };
    next_id = h.next_id + 1;
  }

  -- Out of the map, with its channel closed.
  abbrev pub closed_socket : Socket P → Socket P
  closed_socket s = record s { is_registered = false; is_closed = true }

  -- close(c.send)
  close_send : Socket P → Option (Socket P)
  close_send s = if s.is_closed then none else some (closed_socket s)

  -- The socket, if it was not closed twice, with the counters.
  with_counters : Counters → Option (Socket P) → Option (Socket P × Counters)
  with_counters n none = none
  with_counters n (some s) = some (s, n)

  -- `remove`: nothing happens to a socket that is not in the map.
  unfoldable pub remove_from : ℕ → List (Socket P) → Counters → Option (List (Socket P) × Counters)
  unfolding close_send
  remove_from id [] n = some ([], n)
  remove_from id (s ∷ ss) n =
      let rest = remove_from id ss n in
      if s.id == id && s.is_registered
      then close_send s >>= (λ s'. some (s' ∷ ss, one_less n))
      else rest >>= (λ r. some (s ∷ r.0, r.1))

  unfoldable pub remove : ℕ → Hub P → Option (Hub P)
  remove id h = do
    r ← remove_from id h.sockets h.counters
    pure (record h { sockets = r.0; counters = r.1 })

  -- One socket of the user: the payload goes into its buffer, or the socket is dropped as too slow.
  unfoldable pub offer : P → Socket P → Counters → Option (Socket P × Counters)
  unfolding close_send with_counters
  offer p s n =
      if s.is_closed
      then none
      else if ltb (length s.send) send_buffer
      then some (record s { send = s.send ++ p ∷ [] }, record n { sent = n.sent + 1 })
      else with_counters (one_less (record n { dropped = n.dropped + 1 })) (close_send s)

  -- `h.clients[userID]`, one socket after the other.
  unfoldable pub deliver_user :
      ℕ → P → List (Socket P) → Counters → Option (List (Socket P) × Counters)
  deliver_user u p [] n = some ([], n)
  deliver_user u p (s ∷ ss) n = do
    first ← (if s.user_id == u && s.is_registered then offer p s n else some (s, n))
    rest ← deliver_user u p ss first.1
    pure (first.0 ∷ rest.0, rest.1)

  unfoldable pub deliver_users :
      List ℕ → P → List (Socket P) → Counters → Option (List (Socket P) × Counters)
  deliver_users [] p ss n = some (ss, n)
  deliver_users (u ∷ us) p ss n = do r ← deliver_user u p ss n; deliver_users us p r.0 r.1

  unfoldable pub deliver : Envelope P → Hub P → Option (Hub P)
  deliver e h = do
    r ← deliver_users e.user_ids e.payload h.sockets h.counters
    pure (record h { sockets = r.0; counters = r.1 })

  -- `Broadcast`: no wait, and a full queue sheds. No payload is empty here.
  unfoldable pub enqueue : Envelope P → Hub P → Hub P
  enqueue e h =
      if is_empty e.user_ids || h.is_done
      then h
      else if ltb (length h.broadcast) broadcast_buffer
      then record h { broadcast = h.broadcast ++ e ∷ [] }
      else record h { shed = h.shed + 1 }

  -- `closeAll`
  unfoldable pub shut_one : Socket P → Counters → Option (Socket P × Counters)
  unfolding close_send with_counters
  shut_one s n = if s.is_registered then with_counters (one_less n) (close_send s) else some (s, n)

  unfoldable pub close_all_from : List (Socket P) → Counters → Option (List (Socket P) × Counters)
  close_all_from [] n = some ([], n)
  close_all_from (s ∷ ss) n = do
    first ← shut_one s n
    rest ← close_all_from ss first.1
    pure (first.0 ∷ rest.0, rest.1)

  -- `Close`: the test of `done`. A call that finds it closed only waits.
  unfoldable pub test_done : Hub P → Hub P
  test_done h = if h.is_done then h else record h { closing = h.closing + 1 }

  -- The loop's last turn.
  unfoldable pub stop : Hub P → Option (Hub P)
  stop h = do
    r ← close_all_from h.sockets h.counters
    pure (record h { sockets = r.0; counters = r.1; is_done = true })

  -- `Close`: a call that found `done` open closes it, and the loop stops. What the loop still takes in
  -- between comes as requests before this one.
  unfoldable pub close : Hub P → Option (Hub P)
  close h =
      if h.closing == 0
      then some h
      else if h.is_done
      then none
      else stop (record h { closing = h.closing - 1 })

  -- The next turn of the loop takes an envelope.
  deliver_next_of : List (Envelope P) → Hub P → Option (Hub P)
  deliver_next_of [] h = some h
  deliver_next_of (e ∷ es) h = if h.is_done then some h else deliver e (record h { broadcast = es })

  unfoldable pub deliver_next : Hub P → Option (Hub P)
  unfolding deliver_next_of
  deliver_next h = deliver_next_of h.broadcast h

  -- The write pump of a socket takes a payload from its channel.
  abbrev pub rest_of : Socket P → Socket P
  rest_of s = record s { send = elim s.send [ [] ↦ [] | p ∷ ps ↦ ps ] }

  unfoldable pub write_one : ℕ → Hub P → Hub P
  write_one id h = record h { sockets = update (λ (s : Socket P). s.id == id) rest_of h.sockets }

-- What happens to a hub, in any order.
pub data Request (P : Type 0) : Type 0 where
  adds removes writes : ℕ → Request P
  broadcasts : Envelope P → Request P
  delivers tests_done closes : Request P

unfoldable pub step : {P : Type 0} → Request P → Hub P → Option (Hub P)
step (adds user_id) h = some (add user_id h)
step (removes id) h = if h.is_done then some h else remove id h
step (writes id) h = some (write_one id h)
step (broadcasts e) h = some (enqueue e h)
step delivers h = deliver_next h
step tests_done h = some (test_done h)
step closes h = close h

unfoldable pub run : {P : Type 0} → List (Request P) → Hub P → Option (Hub P)
run [] h = some h
run (r ∷ rs) h = step r h >>= run rs
