-- ===== src/Server/Routes/Charged.antt =====
-- Which requests are charged to the limiter of logins (internal/server/routes.go).
use Prim.Native.String.{String}
use go_chat_backend.Common.{
  ℕ, ◌≡◌, refl, Bool, true, false, Option, none, some, if◌then◌else◌, inl, inr, Bool-cases,
}
use go_chat_backend.Common.Assoc.{string_key}
use go_chat_backend.Server.Auth.{Claims, auth_middleware}
use go_chat_backend.Server.Bearer.{Text}
use go_chat_backend.Server.RateLimit.{RateLimiter, Answer, allow}
use go_chat_backend.Server.RateLimit.Keys.{ip_key, user_key}
use go_chat_backend.Server.Routes.{
  Node, Public, Private, Route, Request, Weather, Outcome, operations, by_address, by_token,
  register, login, refresh, logout, socket, profile, list_conversations, create_conversation,
  add_member, send_message, list_messages, mark_read, presence, by_auth, by_api, connected,
  ws_handler, handle_public, handle_private, serve_public, behind_auth, serve_route, serve,
}

-- The routes that are charged to the limiter of logins.
abbrev pub is_login_limited : Route → Bool
is_login_limited (operations p) = false
is_login_limited (by_address (socket query upgraded)) = false
is_login_limited (by_address p) = true
is_login_limited (by_token p) = false

connected-auth :
    (upgraded : Bool) (o : Option Claims) (n : Node)
    → (connected upgraded o n).1.auth_limiter ≡ n.auth_limiter
connected-auth upgraded none n = refl
connected-auth true (some c) n = refl
connected-auth false (some c) n = refl

handle_public-auth :
    (w : Weather) (header : Text) (p : Public) (n : Node)
    → (handle_public w header p n).1.auth_limiter ≡ n.auth_limiter
unfolding handle_public ws_handler
handle_public-auth w header (register body) n = refl
handle_public-auth w header (login body random) n = refl
handle_public-auth w header (refresh cookie) n = refl
handle_public-auth w header (logout cookie) n = refl
handle_public-auth w header (socket query upgraded) n = connected-auth upgraded _ n

handle_private-auth :
    (w : Weather) (p : Private) (user : ℕ) (username : String) (n : Node)
    → (handle_private w p user username n).1.auth_limiter ≡ n.auth_limiter
unfolding handle_private
handle_private-auth w profile user username n = refl
handle_private-auth w list_conversations user username n = refl
handle_private-auth w (create_conversation body) user username n = refl
handle_private-auth w (add_member id body) user username n = refl
handle_private-auth w (send_message id body) user username n = refl
handle_private-auth w (list_messages id before after limit) user username n = refl
handle_private-auth w (mark_read id) user username n = refl
handle_private-auth w (presence id) user username n = refl

-- The limiter of logins after a handler that leaves it alone.
by_auth-limiter :
    (l : RateLimiter × Answer) (handler : Node → Outcome × Node) (n : Node)
    → ((m : Node) → (handler m).1.auth_limiter ≡ m.auth_limiter)
    → (by_auth l handler n).1.auth_limiter ≡ l.0
by_auth-limiter l handler n keep = elim (Bool-cases l.1.granted) [
  | inl granted ↦ rw granted (keep (record n { auth_limiter = l.0 }))
  | inr refused ↦ rw refused refl
]

by_api-limiter :
    (l : RateLimiter × Answer) (handler : Node → Outcome × Node) (n : Node)
    → ((m : Node) → (handler m).1.auth_limiter ≡ m.auth_limiter)
    → (by_api l handler n).1.auth_limiter ≡ n.auth_limiter
by_api-limiter l handler n keep = elim (Bool-cases l.1.granted) [
  | inl granted ↦ rw granted (keep (record n { api_limiter = l.0 }))
  | inr refused ↦ rw refused refl
]

abbrev pub charge : Request → Node → RateLimiter × Answer
charge q n = allow q.at (ip_key q.ip) n.auth_limiter

login-limiter :
    (w : Weather) (q : Request) (p : Public) (n : Node)
    → (by_auth (charge q n) (handle_public w q.header p) n).1.auth_limiter ≡ (charge q n).0
login-limiter w q p n =
    by_auth-limiter (charge q n) (handle_public w q.header p) n (handle_public-auth w q.header p)

serve_public-auth :
    (w : Weather) (q : Request) (p : Public) (n : Node)
    → (serve_public w q p n).1.auth_limiter
      ≡ (if is_login_limited (by_address p) then (charge q n).0 else n.auth_limiter)
unfolding serve_public
serve_public-auth w q (register body) n = login-limiter w q (register body) n
serve_public-auth w q (login body random) n = login-limiter w q (login body random) n
serve_public-auth w q (refresh cookie) n = login-limiter w q (refresh cookie) n
serve_public-auth w q (logout cookie) n = login-limiter w q (logout cookie) n
serve_public-auth w q (socket query upgraded) n =
    by_api-limiter (allow q.at (ip_key q.ip) n.api_limiter)
      (handle_public w q.header (socket query upgraded)) n
      (handle_public-auth w q.header (socket query upgraded))

behind_auth-auth :
    (w : Weather) (q : Request) (p : Private) (o : Option Claims) (n : Node)
    → (behind_auth w q p o n).1.auth_limiter ≡ n.auth_limiter
behind_auth-auth w q p none n = refl
behind_auth-auth w q p (some c) n =
    by_api-limiter (allow q.at (user_key c.user_id q.ip) n.api_limiter)
      (handle_private w p c.user_id c.username) n (handle_private-auth w p c.user_id c.username)

serve-auth :
    (w : Weather) (q : Request) (r : Route) (n : Node)
    → (serve_route w q r n).1.auth_limiter
      ≡ (if is_login_limited r then (charge q n).0 else n.auth_limiter)
serve-auth w q (operations p) n = refl
serve-auth w q (by_address p) n = serve_public-auth w q p n
serve-auth w q (by_token p) n =
    behind_auth-auth w q p (auth_middleware w.crypto w.clock.now q.header) n

pub serve-charges :
    (w : Weather) (q : Request) (n : Node)
    → (serve w q n).1.auth_limiter
      ≡ (if is_login_limited q.route then (charge q n).0 else n.auth_limiter)
unfolding serve
serve-charges w q n = serve-auth w q q.route n
