-- ===== src/Server/Presence/Lists.antt =====
-- What the answer of PresenceHandler says of each member (internal/server/presence.go).

use go_chat_backend.Common.{
  ℕ, ◌==◌, ◌≡◌, inl, inr, refl, ap, ◌∙◌, Bool, true, false, not, ◌&&◌, Option, none, some, List, [],
  ◌∷◌, if◌then◌else◌, arith, Bool-cases, ◌≤◌, ◌-◌, length, ltb, ◌||◌,
}
use go_chat_backend.Common.Assoc.{nat_key, lookup, put, lookup-put}
use go_chat_backend.Common.Rows.{select}
use go_chat_backend.Database.{Db, ok}
use go_chat_backend.Database.OutboxTable.{is_in}
use go_chat_backend.Database.Rooms.{list_conversation_member_ids}
use go_chat_backend.Presence.Client.{Client, Answer, success_answer, call, circuit_open, error}
use go_chat_backend.Presence.Methods.{all_set, ask_online, online_map, online_answer}
use go_chat_backend.Server.Conversations.{Param, Response, entered, member_only}
use go_chat_backend.Server.Presence.{
  user_ids, Weather, online_members, is_set, or_false, Presence, split, presence_handler, shown,
  local_user_ids,
}
use go_chat_backend.Ws.Hub.{Hub, Socket}
use go_chat_backend.Presence.Service.{online_rpc, max_users_per_call, online_status}
use go_chat_backend.Presence.Store.{SortedSet, online, ttl, Store}
use go_chat_backend.Presence.Store.Online.{Beat, Within, heard_of, run, new_store, online-heard}

split-select :
    (online : ℕ → Bool) (ids : List ℕ)
    → split online ids
      ≡ record { online = select online ids; offline = select (λ id. not (online id)) ids }
unfolding split select
split-select online [] = refl
split-select online (id ∷ ids) = elim (Bool-cases (online id)) [
  | inl on ↦ rw (on, split-select online ids) refl
  | inr off ↦ rw (off, split-select online ids) refl
]

is_set-put :
    (k id : ℕ) (b : Bool) (m : List (ℕ × Bool))
    → is_set (put k b m) id ≡ (if k == id then b else is_set m id)
is_set-put k id b m = ap or_false (lookup-put k id b m) ∙ ground (arith, nat_key.same_iff k id)

is_set-all_set :
    (b : Bool) (us : List ℕ) (m : List (ℕ × Bool)) (id : ℕ)
    → is_set (all_set b us m) id ≡ (if is_in us id then b else is_set m id)
is_set-all_set b [] m id = refl
is_set-all_set b (u ∷ us) m id =
    ground (arith, is_set-all_set b us (put u b m) id, is_set-put u id b m)

is_set-online_map : (users got : List ℕ) (id : ℕ) → is_set (online_map users got) id ≡ is_in got id
unfolding online_map lookup
is_set-online_map users got id =
    ground
      (arith, is_set-all_set true got (all_set false users []) id, is_set-all_set false users [] id)

-- The members, in the order of the list, that pass a test, and those that do not.
abbrev pub Lists : (ℕ → Bool) → List ℕ → Presence
Lists online members = record {
  online = select online members;
  offline = select (λ id. not (online id)) members;
}

split-same :
    (f g : ℕ → Bool) (members : List ℕ)
    → ((id : ℕ) → is_in members id ≡ true → f id ≡ g id)
    → split f members ≡ Lists g members
unfolding split select
split-same f g [] h = refl
split-same f g (m ∷ ms) h =
    ground (arith, h m, split-same f g ms (λ id e. h id (ground (arith, e))))

is_in-select :
    (p : ℕ → Bool) (xs : List ℕ) (id : ℕ) → is_in (select p xs) id ≡ (is_in xs id && p id)
unfolding select
is_in-select p [] id = refl
is_in-select p (x ∷ xs) id = ground (arith, is_in-select p xs id, ap p {x = x} {y = id})

-- The user has a socket in the map of the hub.
abbrev pub has_socket : {P : Type 0} → List (Socket P) → ℕ → Bool
has_socket [] u = false
has_socket (s ∷ ss) u = (s.is_registered && s.user_id == u) || has_socket ss u

is_in-local_user_ids :
    {P : Type 0} (ss : List (Socket P)) (u : ℕ) → is_in (local_user_ids ss) u ≡ has_socket ss u
is_in-local_user_ids [] u = refl
is_in-local_user_ids (s ∷ ss) u =
    ground
      (arith, is_in-local_user_ids ss u, ap (is_in (local_user_ids ss)) {x = s.user_id} {y = u})

page : Presence → Response Presence
page p = record { status = 200; body = some p }

is_set-local : (us : List ℕ) (id : ℕ) → is_set (all_set true us []) id ≡ is_in us id
unfolding lookup
is_set-local us id = ground (arith, is_set-all_set true us [] id)

online_answer-ok :
    (users got : List ℕ) (r : Answer × Client)
    → r.0 ≡ success_answer
    → online_answer users got r ≡ (some (online_map users got), some r.1)
online_answer-ok users got (success_answer, c) h = refl
online_answer-ok users got (circuit_open, c) h = absurd (cc)
online_answer-ok users got (error s, c) h = absurd (cc)

module _ {P : Type 0} (w : Weather) (h : Hub P) (id : Param) (user room : ℕ) (db : Db)
    (inside : member_only w.member id user db ≡ (entered room, db)) where
  -- A node without a presence service, whose hub is open, answers a member with 200 and lists as online the members of
  -- the room who have a socket on the node, and as offline all others.
  pub presence_handler-alone :
      (members : List ℕ)
      → h.is_done ≡ false
      → list_conversation_member_ids w.members room db ≡ (ok members, db)
      → (presence_handler w h id user none db).response
        ≡ record { status = 200; body = some (Lists (has_socket h.sockets) members) }
  unfolding page presence_handler online_members user_ids
  presence_handler-alone members open_ listed =
      rw (inside, listed, open_)
        (ap page (
          split-same _ (has_socket h.sockets) members (λ id e.
            is_set-local (local_user_ids h.sockets) id ∙ is_in-local_user_ids h.sockets id)))

  served :
      (c : Client) (m : ℕ) (members : List ℕ) (online : ℕ → Bool)
      → list_conversation_member_ids w.members room db ≡ (ok (m ∷ members), db)
      → (call w.call c).0 ≡ success_answer
      → w.got ≡ select online (m ∷ members)
      → (presence_handler w h id user (some c) db).response
        ≡ record { status = 200; body = some (Lists online (m ∷ members)) }
  unfolding page presence_handler online_members ask_online
  served c m members online listed good got =
      rw (inside, listed)
        (ap (λ r. (shown (m ∷ members) db r).response)
            (online_answer-ok (m ∷ members) w.got (call w.call c) good)
          ∙ ap page (
              split-same (is_set (online_map (m ∷ members) w.got)) online (m ∷ members) (λ k e.
                is_set-online_map (m ∷ members) w.got k
                ∙ ap (λ g. is_in g k) got
                ∙ is_in-select online (m ∷ members) k
                ∙ rw e refl)))

online_status-some :
    {S : Type 0} (redis : SortedSet S) (us : List ℕ) (r : Option (List ℕ) × Store S)
    → r.0 ≡ some us
    → (online_status redis r).1 ≡ us
online_status-some redis us (none, st) h = absurd (cc)
online_status-some redis us (some vs, st) h = cc

online_rpc-some :
    {S : Type 0} (redis : SortedSet S) (now : ℕ) (users : List ℕ) (st : Store S) (us : List ℕ)
    → length users ≤ max_users_per_call
    → (online redis false now users st).0 ≡ some us
    → (online_rpc redis false now users st).1 ≡ us
unfolding online_rpc
online_rpc-some redis now users st us few h =
    let fits : ltb max_users_per_call (length users) ≡ false = ground arith in
    rw fits (online_status-some redis us (online redis false now users st) h)

-- Presence from end to end. A member of a room asks a node whose call of the presence service is
-- answered with what the service reads in Redis, the database lets the asker in and lists the members,
-- at least one and at most 10000, and it is 30 seconds or later on the clock: the answer
-- is 200 and lists as online the members whom a heartbeat that was written named within the last 30
-- seconds, on whatever node, and as offline all others, both in the order of the table.
pub presence_handler-heard :
    {P S : Type 0} (redis : SortedSet S) (bs : List Beat) (now : ℕ) (w : Weather) (h : Hub P)
    (id : Param) (user room : ℕ) (c : Client) (m : ℕ) (members : List ℕ) (db : Db)
    → Within 0 bs now
    → ttl ≤ now
    → length (m ∷ members) ≤ max_users_per_call
    → w.got ≡ (online_rpc redis false now (m ∷ members) (run redis bs (new_store redis))).1
    → (call w.call c).0 ≡ success_answer
    → member_only w.member id user db ≡ (entered room, db)
    → list_conversation_member_ids w.members room db ≡ (ok (m ∷ members), db)
    → (presence_handler w h id user (some c) db).response
      ≡ record { status = 200; body = some (Lists (λ u. heard_of (now - ttl) u bs) (m ∷ members)) }
unfolding online_rpc
presence_handler-heard redis bs now w h id user room c m members db order late few got good inside
      listed =
    served w h id user room db inside c m members (λ u. heard_of (now - ttl) u bs) listed good
      (got
        ∙ online_rpc-some redis now (m ∷ members) (run redis bs (new_store redis)) _ few
            (online-heard redis bs now m members order late))
