-- ===== src/Examples.antt =====
-- The theorems at concrete inputs, and runs of the definitions.
pub mod Bridge
pub mod Joins
pub mod Requests
pub mod Services
pub mod Codec
pub mod Accounts
pub mod Channels
pub mod Pump
