-- ===== src/Cmd.antt =====
-- The command that starts the server (cmd/).
pub mod Settings
pub mod Serve
pub mod ReadOnly
