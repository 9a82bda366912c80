-- ===== src/Server/Routes/Window.antt =====
-- How many attempts at a password, an account or a session one address has (internal/server/routes.go
-- over internal/server/ratelimit.go).
use Prim.Native.String.{String}
use text.Mathlib.Text.{◌==◌ as str_eq}
use text.Mathlib.TextPositions.{eq_refl}
use go_chat_backend.Common.{
  ℕ, ◌+◌, ◌-◌, ◌*◌, ◌≡◌, ◌≤◌, refl, ap, ◌∙◌, subst, true, false, not, ◌&&◌, List, [], ◌∷◌, arith,
  if◌then◌else◌, ◌==◌, inl, inr, Bool-cases,
}
use go_chat_backend.Common.Assoc.{string_key}
use go_chat_backend.Server.RateLimit.{Call, one_token}
use go_chat_backend.Server.RateLimit.Refill.{Settled}
use go_chat_backend.Server.RateLimit.Window.{Within, granted_to, granted_to-window}
use go_chat_backend.Server.RateLimit.Keys.{ip_key}
use go_chat_backend.Server.Routes.{
  Node, Route, Request, Weather, operations, by_address, by_token, register, login, refresh, logout,
  socket, serve_public, serve_route, serve,
}
use go_chat_backend.Server.Routes.Charged.{is_login_limited, charge, serve-charges}

-- The calls of the limiter of logins, over some requests.
abbrev pub login_calls : List (Weather × Request) → List Call
login_calls [] = []
login_calls ((w, q) ∷ qs) =
    if is_login_limited q.route
    then record { at = q.at; key = ip_key q.ip } ∷ login_calls qs
    else login_calls qs

-- How many requests of an address to these routes are answered with anything but 429.
unfoldable pub let_through : String → List (Weather × Request) → Node → ℕ
let_through ip [] n = 0
let_through ip ((w, q) ∷ qs) n =
    (if is_login_limited q.route && (str_eq q.ip ip && not ((serve w q n).0.status == 429))
      then 1
      else 0)
    + let_through ip qs (serve w q n).1

serve_route-status :
    (w : Weather) (q : Request) (r : Route) (n : Node)
    → is_login_limited r ≡ true
    → (charge q n).1.granted ≡ false
    → (serve_route w q r n).0.status ≡ 429
unfolding serve_public
serve_route-status w q (operations p) n i h = absurd (cc)
serve_route-status w q (by_address (register body)) n i h = rw h refl
serve_route-status w q (by_address (login body random)) n i h = rw h refl
serve_route-status w q (by_address (refresh cookie)) n i h = rw h refl
serve_route-status w q (by_address (logout cookie)) n i h = rw h refl
serve_route-status w q (by_address (socket query upgraded)) n i h = absurd (cc)
serve_route-status w q (by_token p) n i h = absurd (cc)

same_key : (a b : String) → str_eq a b ≡ true → str_eq (ip_key a) (ip_key b) ≡ true
same_key a b h =
    ap (λ x. str_eq (ip_key x) (ip_key b)) ((string_key.same_iff a b).0 h) ∙ eq_refl (ip_key b)

-- One request that is charged.
let_through-one :
    (w : Weather) (q : Request) (ip : String) (n : Node)
    → is_login_limited q.route ≡ true
    → (if str_eq q.ip ip && not ((serve w q n).0.status == 429) then 1 else 0)
      ≤ (if str_eq (ip_key q.ip) (ip_key ip) && (charge q n).1.granted then 1 else 0)
unfolding serve
let_through-one w q ip n i = ground (arith, same_key q.ip ip, serve_route-status w q q.route n)

let_through-le :
    (ip : String) (qs : List (Weather × Request)) (n : Node)
    → let_through ip qs n ≤ granted_to (ip_key ip) n.auth_limiter (login_calls qs)
unfolding let_through granted_to
let_through-le ip [] n = omega arith
let_through-le ip ((w, q) ∷ qs) n = elim (Bool-cases (is_login_limited q.route)) [
  | inl i ↦
      let ih : let_through ip qs (serve w q n).1
          ≤ granted_to (ip_key ip) (charge q n).0 (login_calls qs) =
        subst (λ l. let_through ip qs (serve w q n).1 ≤ granted_to (ip_key ip) l (login_calls qs))
          (serve-charges w q n ∙ rw i refl) (let_through-le ip qs (serve w q n).1) in
      rw i (omega (arith, ih, let_through-one w q ip n i))
  | inr other ↦
      let ih : let_through ip qs (serve w q n).1
          ≤ granted_to (ip_key ip) n.auth_limiter (login_calls qs) =
        subst (λ l. let_through ip qs (serve w q n).1 ≤ granted_to (ip_key ip) l (login_calls qs))
          (serve-charges w q n ∙ rw other refl) (let_through-le ip qs (serve w q n).1) in
      rw other (omega (arith, ih))
]

-- The requests come in the order of their times, between `start` and `end`.
abbrev pub InOrder : ℕ → List (Weather × Request) → ℕ → Type 0
InOrder start [] end = start ≤ end
InOrder start ((w, q) ∷ qs) end = (start ≤ q.at) × InOrder q.at qs end

Within-earlier :
    (start start' : ℕ) (cs : List Call) (end : ℕ)
    → start ≤ start'
    → Within start' cs end
    → Within start cs end
Within-earlier start start' [] end h w = omega arith
Within-earlier start start' (c ∷ cs) end h w = (omega arith, w.1)

InOrder-Within :
    (start : ℕ) (qs : List (Weather × Request)) (end : ℕ)
    → InOrder start qs end
    → Within start (login_calls qs) end
InOrder-Within start [] end o = o
InOrder-Within start ((w, q) ∷ qs) end o = elim (Bool-cases (is_login_limited q.route)) [
  | inl i ↦ rw i (o.0, InOrder-Within q.at qs end o.1)
  | inr other ↦
      rw other (Within-earlier start q.at (login_calls qs) end o.0 (InOrder-Within q.at qs end o.1))
]

-- In any window of time one address is answered with anything but 429 on the routes of accounts and
-- sessions no more often than a burst and what the rate adds during the window, in tokens: whatever
-- other requests come, of whom and to which routes, and whatever the handlers do.
pub let_through-window :
    (start end : ℕ) (ip : String) (qs : List (Weather × Request)) (n : Node)
    → Settled start n.auth_limiter
    → InOrder start qs end
    → let_through ip qs n * one_token ≤ n.auth_limiter.burst + (end - start) * n.auth_limiter.rate
let_through-window start end ip qs n settled order = omega (
  arith,
  let_through-le ip qs n,
  granted_to-window n.auth_limiter start end (ip_key ip) (login_calls qs) settled
      (InOrder-Within start qs end order),
)
