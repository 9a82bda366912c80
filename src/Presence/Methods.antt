-- ===== src/Presence/Methods.antt =====
-- The methods of the presence client around one call (Online, Heartbeat and Ping of
-- internal/presence/client.go). No client stands for a node by itself. What the service answers, if it
-- answers, is given.
use go_chat_backend.Common.{ℕ, Bool, true, false, Option, none, some, List, [], ◌∷◌}
use go_chat_backend.Common.Assoc.{nat_key, put}
use go_chat_backend.Presence.Client.{
  Weather, Client, Answer, success_answer, circuit_open, error, call,
}

abbrev pub all_set : Bool → List ℕ → List (ℕ × Bool) → List (ℕ × Bool)
all_set b [] m = m
all_set b (u ∷ us) m = all_set b us (put u b m)

-- An entry for every user asked about, and for every user in the answer.
unfoldable pub online_map : List ℕ → List ℕ → List (ℕ × Bool)
online_map users got = all_set true got (all_set false users [])

abbrev pub online_answer :
    List ℕ → List ℕ → Answer × Client → Option (List (ℕ × Bool)) × Option Client
online_answer users got (success_answer, c) = (some (online_map users got), some c)
online_answer users got (circuit_open, c) = (none, some c)
online_answer users got (error s, c) = (none, some c)

unfoldable pub ask_online :
    Weather → List ℕ → List ℕ → Option Client → Option (List (ℕ × Bool)) × Option Client
ask_online w got users none = (some [], none)
ask_online w got [] (some c) = (some [], some c)
ask_online w got (u ∷ us) (some c) = online_answer (u ∷ us) got (call w c)

abbrev pub beaten : Answer × Client → Answer × Option Client
beaten (a, c) = (a, some c)

unfoldable pub send_heartbeat : Weather → Option Client → Answer × Option Client
send_heartbeat w none = (success_answer, none)
send_heartbeat w (some c) = beaten (call w c)

-- What the health service answers.
pub data Health : Type 0 where
  no_answer serving not_serving : Health

-- Whether there is no error. It does not ask the breaker, and tells it nothing.
unfoldable pub ping : Health → Option Client → Bool
ping h none = true
ping serving (some c) = true
ping no_answer (some c) = false
ping not_serving (some c) = false
