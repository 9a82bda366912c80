-- ===== src/Server/Conversations.antt =====
-- The routes of a room (internal/server/conversations.go). What strconv and the binding of JSON make
-- of a request is given; a response is its status and what the handler put into the body. The names
-- that GORM loads beside a message are left out.
pub mod CatchUp
pub mod Sending
mod Tests
use Prim.Native.String.{String}
use text.Mathlib.Text.{◌==◌ as str_eq}
use go_chat_backend.Common.{
  ℕ, Bool, true, false, ◌&&◌, Option, none, some, List, [], ◌∷◌, ltb, min, if◌then◌else◌, ◌==◌,
  length, map,
}
use go_chat_backend.Common.Assoc.{lookup, nat_key}
use go_chat_backend.Database.{
  Conversation, Message, Db, Env, Error, Result, ok, err, conversation_not_found, user_not_found,
  already_member,
}
use go_chat_backend.Database.Messages.{
  Draft, create_message, list_messages, list_messages_after_seq,
}
use go_chat_backend.Database.Rooms.{
  ensure_member, add_member, create_conversation, list_conversations_for_user,
}
use go_chat_backend.Database.Sessions.{get_user_by_id}
use go_chat_backend.Database.Unread.{unread_for_user, mark_conversation_read}

-- A number in a path or a query, as strconv reads it.
pub data Param : Type 0 where
  absent unreadable : Param
  number : ℕ → Param

-- The body of a response, less the texts of the errors.
pub record Response (A : Type 0) : Type 0 where
  pub status : ℕ
  pub body : Option A

abbrev pub fails_with : {A : Type 0} → ℕ → Db → Response A × Db
fails_with status db = (record { status = status; body = none }, db)

abbrev pub answers_with : {A : Type 0} → ℕ → A → Db → Response A × Db
answers_with status a db = (record { status = status; body = some a }, db)

-- How the database behaves at each call that a handler makes.
pub record Weather : Type 0 where
  pub member : Env
  pub user : Env
  pub work : Env

-- The status that ends the request, or the room.
pub data Gate : Type 0 where
  refused : ℕ → Gate
  entered : ℕ → Gate

abbrev after_ensure : ℕ → Result (Unit {0}) × Db → Gate × Db
after_ensure id (ok _, db) = (entered id, db)
after_ensure id (err conversation_not_found, db) = (refused 404, db)
after_ensure id (err _, db) = (refused 500, db)

unfoldable pub member_only : Env → Param → ℕ → Db → Gate × Db
member_only env absent user db = (refused 404, db)
member_only env unreadable user db = (refused 404, db)
member_only env (number id) user db =
    if id == 0 then (refused 404, db) else after_ensure id (ensure_member env id user db)

abbrev pub inside : {A : Type 0} → (ℕ → Db → Response A × Db) → Gate × Db → Response A × Db
inside handler (refused status, db) = fails_with status db
inside handler (entered id, db) = handler id db

abbrev pub default_page_size : ℕ
default_page_size = 50

abbrev pub max_page_size : ℕ
max_page_size = 100

pub record PageQuery : Type 0 where
  pub before_id : ℕ
  pub after_seq : ℕ
  pub gap : Bool
  pub limit : ℕ

abbrev with_limit : Param → PageQuery → Option PageQuery
with_limit absent q = some q
with_limit unreadable q = none
with_limit (number v) q = if ltb v 1 then none else some (record q { limit = min v max_page_size })

abbrev first_page : PageQuery
first_page = record { before_id = 0; after_seq = 0; gap = false; limit = default_page_size }

-- before_id, after_seq and limit; nothing means that 400 was sent.
unfoldable pub page_params : Param → Param → Param → Option PageQuery
page_params absent absent limit = with_limit limit first_page
page_params (number v) absent limit = with_limit limit (record first_page { before_id = v })
page_params absent (number v) limit =
    with_limit limit (record first_page { after_seq = v; gap = true })
page_params unreadable absent limit = none
page_params absent unreadable limit = none
page_params _ _ limit = none

-- A page, and the cursor of the next one.
pub record MessagePage : Type 0 where
  pub messages : List Message
  pub next_before_id : Option ℕ
  pub next_after_seq : Option ℕ

abbrev pub last_of : (Message → ℕ) → List Message → Option ℕ
last_of f [] = none
last_of f (m ∷ ms) = elim (last_of f ms) [ none ↦ some (f m) | some n ↦ some n ]

-- A full page has a next one.
abbrev pub cursor : ℕ → (Message → ℕ) → List Message → Option ℕ
cursor limit f ms = if length ms == limit then last_of f ms else none

abbrev gap_page : ℕ → Result (List Message) × Db → Response MessagePage × Db
gap_page limit (err e, db) = fails_with 500 db
gap_page limit (ok ms, db) =
    answers_with 200
      (record {
        messages = ms;
        next_before_id = none;
        next_after_seq = cursor limit (λ m. m.seq) ms;
      })
      db

unfoldable pub list_gap : Env → ℕ → PageQuery → Db → Response MessagePage × Db
list_gap env id q db = gap_page q.limit (list_messages_after_seq env id q.after_seq q.limit db)

abbrev history_page : ℕ → Result (List Message) × Db → Response MessagePage × Db
history_page limit (err e, db) = fails_with 500 db
history_page limit (ok ms, db) =
    answers_with 200
      (record {
        messages = ms;
        next_before_id = cursor limit (λ m. m.id) ms;
        next_after_seq = none;
      })
      db

unfoldable pub list_page : Env → ℕ → Option PageQuery → Db → Response MessagePage × Db
list_page env id none db = fails_with 400 db
list_page env id (some q) db =
    if q.gap
    then list_gap env id q db
    else history_page q.limit (list_messages env id q.before_id q.limit db)

unfoldable pub list_messages_handler :
    Weather → Param → Param → Param → Param → ℕ → Db → Response MessagePage × Db
list_messages_handler w id before after limit user db =
    inside (λ room. list_page w.work room (page_params before after limit))
      (member_only w.member id user db)

-- The bound body of a send.
pub record SendRequest : Type 0 where
  pub content : String
  pub client_msg_id : String

-- A missing key is no key, and not the empty one.
abbrev pub key_of : String → Option String
key_of s = if str_eq s "" then none else some s

abbrev sent : Result (Message × Bool) × Db → Response Message × Db
sent (err e, db) = fails_with 500 db
sent (ok (m, created), db) = answers_with (if created then 201 else 200) m db

abbrev pub draft_of : ℕ → ℕ → String → SendRequest → Draft
draft_of room user username req = record {
  conversation_id = room;
  sender_id = user;
  sender_name = username;
  content = req.content;
  client_msg_id = key_of req.client_msg_id;
}

unfoldable pub send_bound : Env → ℕ → String → Option SendRequest → ℕ → Db → Response Message × Db
send_bound env user username none room db = fails_with 400 db
send_bound env user username (some req) room db =
    sent (create_message env (draft_of room user username req) db)

unfoldable pub send_message_handler :
    Weather → Param → Option SendRequest → ℕ → String → Db → Response Message × Db
send_message_handler w id req user username db =
    inside (send_bound w.work user username req) (member_only w.member id user db)

abbrev made : Result Conversation × Db → Response Conversation × Db
made (ok c, db) = answers_with 201 c db
made (err user_not_found, db) = fails_with 400 db
made (err e, db) = fails_with 500 db

-- The bound body is a title and the ids of the members.
unfoldable pub create_conversation_handler :
    Weather → Option (String × List ℕ) → ℕ → Db → Response Conversation × Db
create_conversation_handler w none user db = fails_with 400 db
create_conversation_handler w (some (title, members)) user db =
    made (create_conversation w.work title user members db)

-- A map's zero value for a missing key.
abbrev count_for : List (ℕ × ℕ) → Conversation → Conversation × ℕ
count_for unread c = (c, elim (lookup c.id unread) [ none ↦ 0 | some n ↦ n ])

-- Without the counters the list still goes out.
abbrev with_unread :
    List Conversation → Result (List (ℕ × ℕ)) × Db → Response (List (Conversation × ℕ)) × Db
with_unread convs (ok unread, db) = answers_with 200 (map (count_for unread) convs) db
with_unread convs (err e, db) = answers_with 200 (map (count_for []) convs) db

abbrev listed : Env → ℕ → Result (List Conversation) × Db → Response (List (Conversation × ℕ)) × Db
listed env user (err e, db) = fails_with 500 db
listed env user (ok convs, db) = with_unread convs (unread_for_user env user db)

unfoldable pub list_conversations_handler :
    Weather → ℕ → Db → Response (List (Conversation × ℕ)) × Db
list_conversations_handler w user db =
    listed w.user user (list_conversations_for_user w.work user db)

abbrev marked : ℕ → Result (Unit {0}) × Db → Response ℕ × Db
marked room (ok _, db) = answers_with 200 room db
marked room (err e, db) = fails_with 500 db

unfoldable pub mark_read_handler : Weather → Param → ℕ → Db → Response ℕ × Db
mark_read_handler w id user db =
    inside (λ room db. marked room (mark_conversation_read w.work room user db))
      (member_only w.member id user db)

abbrev joined : ℕ → Result (Unit {0}) × Db → Response ℕ × Db
joined user (ok _, db) = answers_with 201 user db
joined user (err already_member, db) = fails_with 409 db
joined user (err e, db) = fails_with 500 db

abbrev after_user : {A : Type 0} → Env → ℕ → ℕ → Result A × Db → Response ℕ × Db
after_user env room user (ok _, db) = joined user (add_member env room user db)
after_user env room user (err user_not_found, db) = fails_with 404 db
after_user env room user (err e, db) = fails_with 500 db

abbrev add_bound : Weather → Option ℕ → ℕ → Db → Response ℕ × Db
add_bound w none room db = fails_with 400 db
add_bound w (some user) room db = after_user w.work room user (get_user_by_id w.user user db)

unfoldable pub add_member_handler : Weather → Param → Option ℕ → ℕ → Db → Response ℕ × Db
add_member_handler w id req user db = inside (add_bound w req) (member_only w.member id user db)
