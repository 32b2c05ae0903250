-- ===== src/Bridge.antt =====
-- The package internal/bridge.
pub mod VarInt
pub mod Handshake
pub mod Tcp
pub mod HostSession
pub mod Host
pub mod Join
pub mod Session
pub mod Pump
