-- ===== src/Server/Routes/Guarded.antt =====
-- What a request can do before it is admitted (internal/server/routes.go).
use go_chat_backend.Common.{
  ℕ, ◌≡◌, ◌≤◌, ◌⊎◌, refl, true, Option, none, some, arith, inl, inr, Bool-cases,
}
use go_chat_backend.Server.Auth.{Claims, auth_middleware}
use go_chat_backend.Server.RateLimit.{RateLimiter, Answer, allow, retry_after}
use go_chat_backend.Server.RateLimit.Keys.{ip_key, user_key}
use go_chat_backend.Server.Routes.{
  Node, Public, Private, Route, Request, Weather, Outcome, operations, by_address, by_token,
  register, login, refresh, logout, socket, by_auth, by_api, handle_public, handle_private,
  serve_public, behind_auth, serve_route, serve,
}

-- The database, the sockets and the presence client are as they were.
abbrev pub Untouched : Node → Node → Type 0
Untouched n n' = (n'.db ≡ n.db) × (n'.hub ≡ n.hub) × (n'.presence ≡ n.presence)

-- The limiter that a route is charged to, by address.
abbrev pub charged : Public → Node → RateLimiter
charged (socket query upgraded) n = n.api_limiter
charged p n = n.auth_limiter

-- What has to hold before a handler runs.
abbrev pub Admitted : Weather → Request → Node → Route → Type 0
Admitted w q n (operations p) = ⊥
Admitted w q n (by_address p) = (allow q.at (ip_key q.ip) (charged p n)).1.granted ≡ true
Admitted w q n (by_token p) =
    (c : Claims) × (auth_middleware w.crypto w.clock.now q.header ≡ some c)
    × ((allow q.at (user_key c.user_id q.ip) n.api_limiter).1.granted ≡ true)

retry_after_pos : (wait : ℕ) → 1 ≤ retry_after wait
unfolding retry_after
retry_after_pos wait = omega arith

-- A refusal: 401, or 429 with at least a second to wait.
abbrev pub Refused : Outcome → Type 0
Refused o = (o.status ≡ 401) ⊎ ((o.status ≡ 429) × ((s : ℕ) × (o.retry_after ≡ some s) × (1 ≤ s)))

abbrev pub IsProbe : Route → Type 0
IsProbe (operations p) = Unit {0}
IsProbe (by_address p) = ⊥
IsProbe (by_token p) = ⊥

-- The outcome of a handler behind a limiter.
abbrev Behind : Answer → Node → Route → Outcome × Node → Type 0
Behind a n r o = (a.granted ≡ true) ⊎ (Untouched n o.1 × (IsProbe r ⊎ Refused o.0))

by_auth-Behind :
    (l : RateLimiter × Answer) (handler : Node → Outcome × Node) (n : Node) (r : Route)
    → Behind l.1 n r (by_auth l handler n)
by_auth-Behind l handler n r = elim (Bool-cases l.1.granted) [
  | inl admitted ↦ inl admitted
  | inr turned ↦ inr (
      rw turned (
        (refl, refl, refl),
        inr (inr (refl, (retry_after l.1.wait, refl, retry_after_pos l.1.wait))),
      ))
]

by_api-Behind :
    (l : RateLimiter × Answer) (handler : Node → Outcome × Node) (n : Node) (r : Route)
    → Behind l.1 n r (by_api l handler n)
by_api-Behind l handler n r = elim (Bool-cases l.1.granted) [
  | inl admitted ↦ inl admitted
  | inr turned ↦ inr (
      rw turned (
        (refl, refl, refl),
        inr (inr (refl, (retry_after l.1.wait, refl, retry_after_pos l.1.wait))),
      ))
]

-- What the theorem says of the outcome of a request to a route.
abbrev Guarded : Weather → Request → Node → Route → Outcome × Node → Type 0
Guarded w q n r o = Admitted w q n r ⊎ (Untouched n o.1 × (IsProbe r ⊎ Refused o.0))

serve_public-Guarded :
    (w : Weather) (q : Request) (n : Node) (p : Public)
    → Guarded w q n (by_address p) (serve_public w q p n)
unfolding serve_public
serve_public-Guarded w q n (register body) =
    by_auth-Behind (allow q.at (ip_key q.ip) n.auth_limiter)
      (handle_public w q.header (register body)) n (by_address (register body))
serve_public-Guarded w q n (login body random) =
    by_auth-Behind (allow q.at (ip_key q.ip) n.auth_limiter)
      (handle_public w q.header (login body random)) n (by_address (login body random))
serve_public-Guarded w q n (refresh cookie) =
    by_auth-Behind (allow q.at (ip_key q.ip) n.auth_limiter)
      (handle_public w q.header (refresh cookie)) n (by_address (refresh cookie))
serve_public-Guarded w q n (logout cookie) =
    by_auth-Behind (allow q.at (ip_key q.ip) n.auth_limiter)
      (handle_public w q.header (logout cookie)) n (by_address (logout cookie))
serve_public-Guarded w q n (socket query upgraded) =
    by_api-Behind (allow q.at (ip_key q.ip) n.api_limiter)
      (handle_public w q.header (socket query upgraded)) n (by_address (socket query upgraded))

admitted-by :
    (w : Weather) (q : Request) (n : Node) (p : Private) (c : Claims) (o : Outcome × Node)
    → auth_middleware w.crypto w.clock.now q.header ≡ some c
    → Behind (allow q.at (user_key c.user_id q.ip) n.api_limiter).1 n (by_token p) o
    → Guarded w q n (by_token p) o
admitted-by w q n p c o e (inl granted) = inl (c, e, granted)
admitted-by w q n p c o e (inr left) = inr left

behind_auth-Guarded :
    (w : Weather) (q : Request) (n : Node) (p : Private) (o : Option Claims)
    → auth_middleware w.crypto w.clock.now q.header ≡ o
    → Guarded w q n (by_token p) (behind_auth w q p o n)
behind_auth-Guarded w q n p none e = inr ((refl, refl, refl), inr (inl refl))
behind_auth-Guarded w q n p (some c) e = admitted-by w q n p c (behind_auth w q p (some c) n) e (
    by_api-Behind (allow q.at (user_key c.user_id q.ip) n.api_limiter)
      (handle_private w p c.user_id c.username) n (by_token p))

-- A request reaches a handler only if it is admitted: by a token of its address's bucket, or by a valid
-- access token and a token of its user's bucket. Any other request leaves the database, the sockets and
-- the presence client as they are, and it is a probe or is answered with 401, or with 429 and a
-- Retry-After of at least one second.
pub serve-Guarded :
    (w : Weather) (q : Request) (n : Node)
    → Admitted w q n q.route
      ⊎ (Untouched n (serve w q n).1 × (IsProbe q.route ⊎ Refused (serve w q n).0))
unfolding serve
serve-Guarded w q n = go q.route
  where
    go : (r : Route) → Guarded w q n r (serve_route w q r n)
    go (operations p) = inr ((refl, refl, refl), inl tt)
    go (by_address p) = serve_public-Guarded w q n p
    go (by_token p) =
        behind_auth-Guarded w q n p (auth_middleware w.crypto w.clock.now q.header) refl
