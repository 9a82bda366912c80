-- ===== src/Server/Presence/Tests.antt =====
-- The theorems on the presence of a room at requests that exercise them (internal/server/presence.go).
use go_chat_backend.Common.{◌-◌, ◌≡◌, refl, true, false, some, [], ◌∷◌, arith, ℕ}
use go_chat_backend.Common.Rows.{select, find}
use go_chat_backend.Database.{ok}
use go_chat_backend.Database.Rooms.{ensure_member, list_conversation_member_ids}
use go_chat_backend.Database.Samples.{calm, two_members}
use go_chat_backend.Presence.Breaker as Breaker
use go_chat_backend.Presence.Client as Client
use go_chat_backend.Presence.Client.{call, success_answer}
use go_chat_backend.Presence.Service.{online_rpc}
use go_chat_backend.Presence.Store.{ttl}
use go_chat_backend.Presence.Store.Online.{heard_of, run, new_store}
use go_chat_backend.Presence.Store.Samples.{keyed_set, beats}
use go_chat_backend.Server.Conversations.{member_only, number, entered}
use go_chat_backend.Server.Presence.{Weather, presence_handler}
use go_chat_backend.Server.Presence.Lists.{Lists, presence_handler-heard}
use go_chat_backend.Ws.Hub.{Hub}

-- The first attempt is answered.
abbrev answering : Client.Weather
answering = record {
  asked_at = 10;
  reply = λ n. Client.ok;
  has_time = λ n. true;
  wakes = λ n. true;
  parent_done = false;
  failed_at = 20;
}

abbrev client : Client.Client
client = record {
  breaker = record {
    threshold = 5;
    open_for = 100;
    state = Breaker.closed;
    failures = 0;
    opened_at = 0;
    probing = false;
  };
  calls = 0;
  failures = 0;
  retries = 0;
  short_circuited = 0;
}

abbrev asking : Weather
asking = record {
  member = calm 5;
  members = calm 5;
  call = answering;
  got = (online_rpc keyed_set false 135 (1 ∷ 2 ∷ []) (run keyed_set beats (new_store keyed_set))).1;
}

abbrev bob_here : Hub ℕ
bob_here = record {
  sockets = record { id = 0; user_id = 2; is_registered = true; send = []; is_closed = false } ∷ [];
  broadcast = [];
  is_done = false;
  closing = 0;
  counters = record { open_count = 1; sent = 0; dropped = 0 };
  shed = 0;
  next_id = 1;
}

is_inside : member_only (calm 5) (number 1) 1 two_members ≡ (entered 1, two_members)
unfolding member_only ensure_member find select
is_inside = refl

listed : list_conversation_member_ids (calm 5) 1 two_members ≡ (ok (1 ∷ 2 ∷ []), two_members)
unfolding list_conversation_member_ids select
listed = refl

call_answers : (call answering client).0 ≡ success_answer
unfolding call Breaker.allow Client.attempts Client.finish
call_answers = refl

presence_handler-heard_example :
    (presence_handler asking bob_here (number 1) 1 (some client) two_members).response
    ≡ record { status = 200; body = some (Lists (λ u. heard_of (135 - ttl) u beats) (1 ∷ 2 ∷ [])) }
presence_handler-heard_example =
    presence_handler-heard keyed_set beats 135 asking bob_here (number 1) 1 1 client 1 (2 ∷ [])
      two_members (omega arith, (omega arith, (omega arith, omega arith))) (omega arith)
      (omega arith) refl call_answers is_inside listed
