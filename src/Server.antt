-- ===== src/Server.antt =====
-- backend/internal/server: the loopback HTTP API.
pub mod Http
pub mod Answer
pub mod Token
pub mod Auth
pub mod RateLimit
pub mod Events
pub mod Api
pub mod Files
pub mod Browse
pub mod Routes
pub mod Start
pub mod Page
