-- ===== src/Signaling.antt =====
-- internal/signaling: the WebSocket client, its messages and its calls.
pub mod Messages
pub mod Dispatch
pub mod Client
pub mod Rpc
