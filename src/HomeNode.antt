-- ===== src/HomeNode.antt =====
-- The home node: services/home-node/src.
pub mod Config
pub mod Registration
pub mod Proxy
pub mod Access
pub mod Sessions
pub mod Hello
pub mod Http
pub mod Requests
pub mod Streams
pub mod Examples
