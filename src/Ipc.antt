-- ===== src/Ipc.antt =====
-- The package internal/ipc.
pub mod Hosting
pub mod Watch
pub mod Search
pub mod Blocklist
pub mod Server
pub mod Methods
pub mod Observer
