-- ===== src/Ws.antt =====
-- The delivery to sockets (internal/ws).
pub mod Hub
pub mod Pumps
