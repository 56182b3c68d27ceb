-- ===== src/Tests.antt =====
-- The theorems at concrete inputs, a file for each part of the program.
pub mod Requests
pub mod Apps
pub mod Sessions
pub mod Exchanges
pub mod Upstreams
pub mod Lifecycle
pub mod Servers
pub mod Orderly
pub mod Stickiness
pub mod Overlaps
