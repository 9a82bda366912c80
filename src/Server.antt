-- ===== src/Server.antt =====
-- The server package (internal/server).
pub mod Auth
pub mod Bearer
pub mod Conversations
pub mod Presence
pub mod RateLimit
pub mod Routes
pub mod Logging
pub mod App
