-- ===== src/Lib.antt =====
-- go-chat-backend: a chat backend of several nodes over one Postgres database.
--
-- A node takes a message over HTTP and writes it in one transaction with a sequence number of its
-- room and an outbox row (internal/database/conversations.go). The relay of one node drains the
-- outbox, in order, into a publisher, which is a broker or the node itself
-- (internal/outbox/relay.go), and then marks the rows. A consumer applies each event to the unread
-- counters, once however often it is delivered (internal/database/unread.go). Presence is asked from
-- another process through a client with retries and a circuit breaker (internal/presence), and the
-- HTTP routes stand behind token buckets and the check of an access token
-- (internal/server/routes.go).
--
-- The files, with the code that they are about:
--   Event.antt: internal/event/event.go.
--   Database.antt: internal/database/models.go, and how an operation runs. An operation of the
--     service is an action on the tables that answers with a value or an error. Each SQL statement
--     has a number in its operation, and the environment of a call says which statements fail and
--     whether the commit is done, refused, or done with its answer lost. A failed transaction gives
--     back the tables, but not the values of the serial columns. Row locks make each operation one
--     step.
--   Database/Messages.antt: CreateMessage, ListMessages and ListMessagesAfterSeq; the unique indexes
--     are those of internal/database/migrations.
--   Database/Rooms.antt: the operations on rooms and their members.
--   Database/OutboxTable.antt: internal/database/outbox.go.
--   Database/Unread.antt: internal/database/unread.go.
--   Outbox/Relay.antt: Drain, note, clean, the choice of runLeader after a round, and runStats. The
--     publisher is a parameter with a state of its own.
--   Outbox/Election.antt: Run of the relay on several nodes, and the advisory lock of
--     internal/database/outbox.go, one step for each event; an unlock that has no
--     effect leaves the lock with its session in the pool.
--   Outbox/Local.antt: internal/outbox/local.go, with applyUnread and deliverMessage of
--     internal/server/ws.go, which it is wired to. It has a view of the database of its own, since it
--     and the relay write to different tables.
--   Presence/Breaker.antt: internal/presence/breaker.go.
--   Presence/Client.antt: call, record, answered and retryable of internal/presence/client.go. What
--     the attempts come back with, and what the deadline allows, are parameters.
--   Presence/Methods.antt: Online, Heartbeat and Ping of internal/presence/client.go.
--   Presence/Service.antt: internal/presence/service.go.
--   Presence/Store.antt: Heartbeat and Online of internal/presence/store.go; Redis is a parameter with
--     the laws of a sorted set, and a failed pipeline changes nothing.
--   Server/RateLimit.antt: the limiter of internal/server/ratelimit.go and its Retry-After header; its
--     module Keys has the defaults and the keys of the buckets.
--   Server/Bearer.antt: bearerToken of internal/server/auth.go, over lists of code points.
--   Server/Auth.antt: the rest of internal/server/auth.go and internal/server/refresh.go, and
--     wsAccessToken of internal/server/ws.go. bcrypt, SHA-256, the JWT library and the random bytes are
--     parameters.
--   Server/Presence.antt: internal/server/presence.go, and UserIDs of internal/ws/hub.go.
--   Server/Routes.antt: internal/server/routes.go, the middleware of
--     internal/server/ratelimit.go, the probes of internal/server/health.go, and WSHandler. Of an answer
--     there is its status and its Retry-After.
--   Ws/Hub.antt: internal/ws/hub.go, each request of Run a step, the test and the close of done in
--     Close two, and what writePump takes.
--   Ws/Pumps.antt: internal/ws/client.go. The turns of the select, with their times, are given.
--   Broker/Consume.antt: handleUnread and deadLetter of internal/broker/consume.go, over the at most
--     five deliveries of a message that the consumer's MaxDeliver allows; acks and Terms may be lost,
--     and a node may die.
--   Database/Sessions.antt: users (internal/database/database.go) and refresh tokens
--     (internal/database/refresh_tokens.go).
--   Server/Conversations.antt: the handlers of internal/server/conversations.go; a response is its
--     status and what goes into its body.
--   Broker/Publish.antt: Publish of internal/broker/broker.go, as a publisher of the relay. JetStream is
--     a parameter with the laws of a stream with a duplicate window.
--   Broker/Fanout.antt: SubscribeFanout of internal/broker/consume.go, with deliverMessage.
--   Broker/Counting.antt: handleUnread with applyUnread as its work, over the deliveries of a stream.
--   Presence/Member.antt: member and parseMember of internal/presence/store.go.
--   Server/Logging.antt: internal/server/logging.go, the request id over lists of code points.
--   Server/App.antt: the publisher that New of internal/server/server.go chooses, after FromEnv of
--     internal/broker/broker.go, and Shutdown.
--   Cmd/Wsload.antt: percentile, pad and postJSON of cmd/wsload/main.go.
--   Common: tests, decimal numbers, lists, association lists and tables.
-- The modules below each of these hold the theorems, and its module Tests runs them on small data.
--
-- Times are counts of nanoseconds, and of whole seconds in Presence/Store.antt. The limiter's
-- float64 numbers are exact here: tokens are in units of 10 ^ -12 and a rate is in thousandths of
-- a token a second, so no rounding is modelled. Machine integers are numbers without a bound,
-- since the counters grow by one and the ids come from the database; a number that is read from text
-- has to fit in 64 bits, and the waits of Cmd/Wsload.antt wrap around. Loops are structural: the
-- relay's over the rows, the client's over the retries left, which are two. The JSON of an event
-- is abstract, and writing it fails from the year 10000 on, as time.Time does. Where Go counts the
-- bytes of an error text, the model counts characters.
--
-- Not modelled: the associations that GORM loads, soft deletion of users and messages (nothing in
-- the code deletes them), logs, spans and metrics, the connections to NATS, Redis and gRPC, the
-- list of trusted proxies, the reading of the environment, and the other commands, which start
-- processes or drive a running cluster.
pub mod Common
pub mod Event
pub mod Database
pub mod Outbox
pub mod Presence
pub mod Broker
pub mod Cmd
pub mod Server
pub mod Ws
