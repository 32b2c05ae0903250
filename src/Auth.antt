-- ===== src/Auth.antt =====
-- internal/auth: signing in, the saved credentials and the session that keeps the tokens fresh.
pub mod Net
pub mod DeviceCode
pub mod Polling
pub mod Mojang
pub mod Store
pub mod Session
