-- ===== src/Tui.antt =====
-- backend/internal/tui: the interactive shell.
pub mod Commands
pub mod Model
pub mod View
pub mod Completion
