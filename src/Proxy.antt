-- ===== src/Proxy.antt =====
-- The side of the proxies: what they answer, what they are handed, and their threads.
pub mod Subscribe
pub mod Channel
pub mod Names
pub mod Thread
pub mod Activator
pub mod Activation
