-- ===== src/Api.antt =====
-- The package internal/api.
pub mod Dtos
pub mod Client
pub mod Friends
pub mod Presence
pub mod Cache
pub mod Resolve
