-- ===== src/Cmd.antt =====
-- The commands (cmd).
pub mod Wsload
