-- ===== src/Proxy.antt =====
-- src/proxy.rs, a module for each part of it.
pub mod Config
pub mod Upstreams
pub mod Listening
pub mod Services
pub mod Inner
pub mod Lifecycle
