-- ===== src/Cli.antt =====
-- backend/internal/cli: the commands, in their parts. What they print is left out.
pub mod Client
pub mod Folders
pub mod Init
pub mod Status
pub mod Logs
pub mod Control
