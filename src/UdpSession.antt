-- ===== src/UdpSession.antt =====
-- crates/overlay-transport/src/udp_session.rs.
pub mod Packet
pub mod Session
pub mod Stream
pub mod Handshake
mod Examples
