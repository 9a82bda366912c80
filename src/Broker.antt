-- ===== src/Broker.antt =====
-- The broker package (internal/broker).
pub mod Consume
pub mod Publish
pub mod Fanout
pub mod Counting
