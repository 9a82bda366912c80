-- ===== src/Server/Presence.antt =====
-- Who of a room is online (internal/server/presence.go), from the presence service or, without one, from
-- the sockets of this node.
pub mod Lists
mod Tests
use go_chat_backend.Common.{
  ℕ, Bool, true, false, not, ◌&&◌, Option, none, some, List, [], ◌∷◌, if◌then◌else◌,
}
use go_chat_backend.Common.Assoc.{nat_key, lookup}
use go_chat_backend.Database.{Db, Env, Result, ok, err}
use go_chat_backend.Database.OutboxTable.{is_in}
use go_chat_backend.Database.Rooms.{list_conversation_member_ids}
use go_chat_backend.Presence.Client as Client
use go_chat_backend.Presence.Client.{Client}
use go_chat_backend.Presence.Methods.{all_set, ask_online}
use go_chat_backend.Server.Conversations.{Param, Response, Gate, refused, entered, member_only}
use go_chat_backend.Ws.Hub.{Hub, Socket}

-- The users of the map of the hub, each once; the order of a Go map is not fixed.
abbrev pub local_user_ids : {P : Type 0} → List (Socket P) → List ℕ
local_user_ids [] = []
local_user_ids (s ∷ ss) =
    let rest = local_user_ids ss in
    if s.is_registered && not (is_in rest s.user_id) then s.user_id ∷ rest else rest

unfoldable pub user_ids : {P : Type 0} → Hub P → List ℕ
user_ids h = if h.is_done then [] else local_user_ids h.sockets

-- How the database and the presence service behave at each call, and what the service answers.
pub record Weather : Type 0 where
  pub member : Env
  pub members : Env
  pub call : Client.Weather
  pub got : List ℕ

unfoldable pub online_members :
    {P : Type 0}
    → Weather
    → Hub P
    → List ℕ
    → Option Client
    → Option (List (ℕ × Bool)) × Option Client
online_members w h members none = (some (all_set true (user_ids h) []), none)
online_members w h members (some c) = ask_online w.call w.got members (some c)

-- A map's zero value for a missing key.
abbrev pub or_false : Option Bool → Bool
or_false none = false
or_false (some b) = b

abbrev pub is_set : List (ℕ × Bool) → ℕ → Bool
is_set m id = or_false (lookup id m)

pub record Presence : Type 0 where
  pub online : List ℕ
  pub offline : List ℕ

-- The loop over the members.
unfoldable pub split : (ℕ → Bool) → List ℕ → Presence
split online [] = record { online = []; offline = [] }
split online (id ∷ ids) =
    let rest = split online ids in
    if online id
    then record rest { online = id ∷ rest.online }
    else record rest { offline = id ∷ rest.offline }

pub record Answered : Type 0 where
  pub response : Response Presence
  pub client : Option Client
  pub db : Db

abbrev pub refuses : ℕ → Option Client → Db → Answered
refuses status client db = record {
  response = record { status = status; body = none };
  client = client;
  db = db;
}

abbrev pub shown : List ℕ → Db → Option (List (ℕ × Bool)) × Option Client → Answered
shown members db (none, client) = refuses 503 client db
shown members db (some m, client) = record {
  response = record { status = 200; body = some (split (is_set m) members) };
  client = client;
  db = db;
}

abbrev pub after_members :
    {P : Type 0} → Weather → Hub P → Option Client → Result (List ℕ) × Db → Answered
after_members w h client (err e, db) = refuses 500 client db
after_members w h client (ok members, db) = shown members db (online_members w h members client)

abbrev pub after_gate : {P : Type 0} → Weather → Hub P → Option Client → Gate × Db → Answered
after_gate w h client (refused status, db) = refuses status client db
after_gate w h client (entered room, db) =
    after_members w h client (list_conversation_member_ids w.members room db)

unfoldable pub presence_handler :
    {P : Type 0} → Weather → Hub P → Param → ℕ → Option Client → Db → Answered
presence_handler w h id user client db = after_gate w h client (member_only w.member id user db)
