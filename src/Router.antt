-- ===== src/Router.antt =====
-- src/router.rs, a module for each part of it.
pub mod Session
pub mod Path
pub mod Host
pub mod Config
pub mod Limits
pub mod Affinity
pub mod Sticky
pub mod Filters
pub mod Upstream
