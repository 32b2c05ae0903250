-- ===== src/Presence.antt =====
-- The package internal/presence.
pub mod Refresher
pub mod Broadcaster
