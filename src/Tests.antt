-- ===== src/Tests.antt =====
-- Runs of the model, and the theorems at concrete inputs.
mod Cli
mod Service
mod Cloud
mod System
pub mod Interrupted
pub mod Memory
mod Guards
mod Unlocking
mod Routes
mod Server
mod Sync
mod Tui
mod Second
mod Status
