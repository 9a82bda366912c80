-- ===== src/Server/Routes/Tests.antt =====
-- The theorems on the routes at requests that exercise them (internal/server/routes.go).

use go_chat_backend.Common.{
  ℕ, ◌+◌, ◌-◌, ◌*◌, ◌≡◌, ◌≤◌, ◌⊎◌, refl, true, false, none, some, List, [], ◌∷◌, arith,
}
use go_chat_backend.Database.Samples.{calm, two_members}
use go_chat_backend.Server.Auth.Samples.{plain, at, fine}
use go_chat_backend.Server.Conversations as Conversations
use go_chat_backend.Server.RateLimit.{one_token, new_rate_limiter}
use go_chat_backend.Server.RateLimit.Refill.{new_rate_limiter-Settled}
use go_chat_backend.Server.RateLimit.Keys.{user_key}
use go_chat_backend.Server.Routes.{
  Node, Request, Weather, by_address, by_token, login, list_conversations, serve,
}
use go_chat_backend.Server.Routes.Guarded.{Untouched, Admitted, IsProbe, Refused, serve-Guarded}
use go_chat_backend.Server.Routes.Window.{let_through, let_through-window}
use go_chat_backend.Presence.Client as Client
use go_chat_backend.Ws.Hub.{new_hub}

abbrev room_weather : Conversations.Weather
room_weather = record { member = calm 5; user = calm 5; work = calm 5 }

abbrev no_answer : Client.Weather
no_answer = record {
  asked_at = 10;
  reply = λ n. Client.unavailable;
  has_time = λ n. true;
  wakes = λ n. true;
  parent_done = false;
  failed_at = 20;
}

abbrev sunny : Weather
sunny = record {
  clock = at 5;
  crypto = plain;
  is_db_up = true;
  account = calm 5;
  session = fine;
  room = room_weather;
  presence = record { member = calm 5; members = calm 5; call = no_answer; got = [] };
}

-- Two logins at once, and one a second later.
abbrev node : Node
node = record {
  db = two_members;
  hub = new_hub;
  presence = none;
  auth_limiter = new_rate_limiter 1000 (2 * one_token);
  api_limiter = new_rate_limiter 1000 (2 * one_token);
  draining = false;
}

abbrev guess : ℕ → Request
guess t = record {
  at = t;
  ip = "10.0.0.1";
  header = [];
  route = by_address (login (some (record { username = "ann"; password = "password" })) none);
}

abbrev guesses : List (Weather × Request)
guesses = (sunny, guess 5) ∷ (sunny, guess 6) ∷ (sunny, guess 7) ∷ []

let_through-window_example :
    let_through "10.0.0.1" guesses node * one_token
    ≤ node.auth_limiter.burst + (10 - 0) * node.auth_limiter.rate
let_through-window_example =
    let_through-window 0 10 "10.0.0.1" guesses node (new_rate_limiter-Settled 1000 (2 * one_token))
      (omega arith, (omega arith, (omega arith, omega arith)))

-- A request with no token.
abbrev anonymous : Request
anonymous = record { at = 5; ip = "10.0.0.1"; header = []; route = by_token list_conversations }

serve-Guarded_example :
    Admitted sunny anonymous node (by_token list_conversations)
    ⊎ (Untouched node (serve sunny anonymous node).1
        × (IsProbe (by_token list_conversations) ⊎ Refused (serve sunny anonymous node).0))
serve-Guarded_example = serve-Guarded sunny anonymous node

user_key_test : user_key 1207 "10.0.0.1" ≡ "user:1207"
unfolding user_key
user_key_test = refl
