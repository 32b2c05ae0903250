-- ===== src/Ipc/Hosting.antt =====
-- internal/ipc/methods_host.go: `host.start`, `host.stop`, `join.start`, `join.stop` and the status.
-- A client, manager or broadcaster that was started is a handle; `live` holds those that run. The
-- answers of the session, the API and the network come in with the request.
mod State
mod Host
mod Join
pub mod Handles
pub mod Leaks
pub mod Stopping
pub mod Answers
unfoldable pub use State.*
unfoldable pub use Host.*
unfoldable pub use Join.*
