-- ===== src/Client.antt =====
-- The client side: requests, their tables and their replies.
pub mod Request
pub mod Connection
pub mod Service
pub mod Proxyname
pub mod World
pub mod Reply
pub mod Invariant
pub mod Route
pub mod Drop
pub mod Timeout
pub mod Steady
