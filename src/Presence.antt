-- ===== src/Presence.antt =====
-- The presence package (internal/presence).
pub mod Service
pub mod Breaker
pub mod Client
pub mod Methods
pub mod Store
pub mod Member
