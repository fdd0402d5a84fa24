-- ===== src/Tests.antt =====
-- The theorems at work on concrete data.
pub mod Sample
pub mod Clients
pub mod Proxies
mod Http
mod Storage
mod System
mod Process
