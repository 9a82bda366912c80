-- ===== src/Outbox.antt =====
-- The outbox package (internal/outbox): the relay, and the publisher of a single node.
pub mod Election
pub mod Local
pub mod Relay
