-- ===== src/Server/Routes.antt =====
-- Which request goes to which handler, and what stands in front of it (internal/server/routes.go, the
-- middleware of internal/server/ratelimit.go, and the probes of
-- internal/server/health.go). Gin, CORS, logs, metrics and spans are left out; of an answer there is
-- its status and its Retry-After header.
pub mod Guarded
pub mod Charged
pub mod Window
mod Tests
use Prim.Native.String.{String, ◌++◌}
use go_chat_backend.Common.{
  ℕ, zero, suc, ◌+◌, ◌*◌, ◌/◌, ◌%◌, Bool, true, false, ◌||◌, Option, none, some, List, [], ◌∷◌, ltb,
  if◌then◌else◌, ◌==◌,
}
use go_chat_backend.Database.{Db, Env}
use go_chat_backend.Presence.Client.{Client}
use go_chat_backend.Server.Auth as Auth
use go_chat_backend.Server.Auth.{
  Crypto, Clock, Claims, Credentials, Reply, Cookie, register_handler, login_handler,
  refresh_handler, logout_handler, auth_middleware, ws_access_token, parse_access_token, identify,
}
use go_chat_backend.Server.Bearer.{Text}
use go_chat_backend.Server.Conversations as Conversations
use go_chat_backend.Server.Conversations.{
  Param, Response, SendRequest, create_conversation_handler, list_conversations_handler,
  add_member_handler, send_message_handler, list_messages_handler, mark_read_handler,
}
use go_chat_backend.Server.Presence as Presence
use go_chat_backend.Server.Presence.{Answered, presence_handler}
use go_chat_backend.Server.RateLimit.{
  RateLimiter, Answer, one_token, allow, new_rate_limiter, retry_after,
}
use go_chat_backend.Server.RateLimit.Keys.{ip_key, user_key}
use go_chat_backend.Ws.Hub.{Hub, add}

-- The state of a node that its handlers share.
pub record Node : Type 0 where
  pub db : Db
  pub hub : Hub Text
  pub presence : Option Client
  pub auth_limiter : RateLimiter
  pub api_limiter : RateLimiter
  pub draining : Bool

pub data Probe : Type 0 where
  livez readyz health metrics : Probe

-- The routes that are limited by address. What a request carries, and for a login the random bytes of
-- its session, and for a socket whether the upgrade is done.
pub data Public : Type 0 where
  register : Option Credentials → Public
  login : Option Credentials → Option Text → Public
  refresh logout : Option Text → Public
  socket : Text → Bool → Public

-- The routes behind the check of the token.
pub data Private : Type 0 where
  profile list_conversations : Private
  create_conversation : Option (String × List ℕ) → Private
  add_member : Param → Option ℕ → Private
  send_message : Param → Option SendRequest → Private
  list_messages : Param → Param → Param → Param → Private
  mark_read presence : Param → Private

pub data Route : Type 0 where
  operations : Probe → Route
  by_address : Public → Route
  by_token : Private → Route

-- A request, at a time of the limiters' clock, with the address that it came from.
pub record Request : Type 0 where
  pub at : ℕ
  pub ip : String
  pub header : Text
  pub route : Route

-- How the world behaves during a request.
pub record Weather : Type 0 where
  pub clock : Clock
  pub crypto : Crypto
  pub is_db_up : Bool
  pub account : Env
  pub session : Auth.Weather
  pub room : Conversations.Weather
  pub presence : Presence.Weather

pub record Outcome : Type 0 where
  pub status : ℕ
  pub retry_after : Option ℕ

abbrev pub ends : ℕ → Node → Outcome × Node
ends status n = (record { status = status; retry_after = none }, n)

unfoldable pub probe : Weather → Probe → Node → ℕ
probe w livez n = 200
probe w metrics n = 200
probe w readyz n = if n.draining then 503 else if w.is_db_up then 200 else 503
probe w health n = if w.is_db_up then 200 else 503

abbrev with_status : Node → ℕ × Db → Outcome × Node
with_status n (status, db) = ends status (record n { db = db })

abbrev with_reply : Node → Reply × Db → Outcome × Node
with_reply n (r, db) = ends r.status (record n { db = db })

abbrev with_logout : Node → ℕ × Cookie × Db → Outcome × Node
with_logout n (status, cookie, db) = ends status (record n { db = db })

abbrev with_response : {A : Type 0} → Node → Response A × Db → Outcome × Node
with_response n (r, db) = ends r.status (record n { db = db })

abbrev with_presence : Node → Answered → Outcome × Node
with_presence n a = ends a.response.status (record n { db = a.db; presence = a.client })

-- `WSHandler`: the token is checked before the upgrade, and the hub takes the socket after it, if it is
-- not closing. A refused upgrade has written its own 400.
abbrev connected : Bool → Option Claims → Node → Outcome × Node
connected upgraded none n = ends 401 n
connected upgraded (some c) n =
    if upgraded then ends 101 (record n { hub = add c.user_id n.hub }) else ends 400 n

unfoldable pub ws_handler : Weather → Text → Text → Bool → Node → Outcome × Node
ws_handler w header query upgraded n =
    connected upgraded (identify w.crypto w.clock.now (ws_access_token header query)) n

unfoldable pub handle_public : Weather → Text → Public → Node → Outcome × Node
handle_public w header (register body) n =
    with_status n (register_handler w.crypto w.account body n.db)
handle_public w header (login body random) n =
    with_reply n (login_handler w.crypto w.clock w.session random body n.db)
handle_public w header (refresh cookie) n =
    with_reply n (refresh_handler w.crypto w.clock w.account cookie n.db)
handle_public w header (logout cookie) n =
    with_logout n (logout_handler w.crypto w.account cookie n.db)
handle_public w header (socket query upgraded) n = ws_handler w header query upgraded n

unfoldable pub handle_private : Weather → Private → ℕ → String → Node → Outcome × Node
handle_private w profile user username n = ends 200 n
handle_private w list_conversations user username n =
    with_response n (list_conversations_handler w.room user n.db)
handle_private w (create_conversation body) user username n =
    with_response n (create_conversation_handler w.room body user n.db)
handle_private w (add_member id body) user username n =
    with_response n (add_member_handler w.room id body user n.db)
handle_private w (send_message id body) user username n =
    with_response n (send_message_handler w.room id body user username n.db)
handle_private w (list_messages id before after limit) user username n =
    with_response n (list_messages_handler w.room id before after limit user n.db)
handle_private w (mark_read id) user username n =
    with_response n (mark_read_handler w.room id user n.db)
handle_private w (presence id) user username n =
    with_presence n (presence_handler w.presence n.hub id user n.presence n.db)

-- `rateLimit`: the handler runs, or the answer is 429.
abbrev pub limited : Answer → (Node → Outcome × Node) → Node → Outcome × Node
limited a handler n =
    if a.granted
    then handler n
    else (record { status = 429; retry_after = some (retry_after a.wait) }, n)

abbrev pub by_auth : (RateLimiter × Answer) → (Node → Outcome × Node) → Node → Outcome × Node
by_auth (l, a) handler n = limited a handler (record n { auth_limiter = l })

abbrev pub by_api : (RateLimiter × Answer) → (Node → Outcome × Node) → Node → Outcome × Node
by_api (l, a) handler n = limited a handler (record n { api_limiter = l })

-- The socket is charged to the limiter of the API, and not to that of the logins.
unfoldable pub serve_public : Weather → Request → Public → Node → Outcome × Node
serve_public w q (socket query upgraded) n =
    by_api (allow q.at (ip_key q.ip) n.api_limiter)
      (handle_public w q.header (socket query upgraded)) n
serve_public w q p n =
    by_auth (allow q.at (ip_key q.ip) n.auth_limiter) (handle_public w q.header p) n

abbrev pub behind_auth : Weather → Request → Private → Option Claims → Node → Outcome × Node
behind_auth w q p none n = ends 401 n
behind_auth w q p (some c) n =
    by_api (allow q.at (user_key c.user_id q.ip) n.api_limiter)
      (handle_private w p c.user_id c.username) n

abbrev pub serve_route : Weather → Request → Route → Node → Outcome × Node
serve_route w q (operations p) n = ends (probe w p n) n
serve_route w q (by_address p) n = serve_public w q p n
serve_route w q (by_token p) n = behind_auth w q p (auth_middleware w.crypto w.clock.now q.header) n

unfoldable pub serve : Weather → Request → Node → Outcome × Node
serve w q n = serve_route w q q.route n
