-- ===== src/Relay.antt =====
-- The relay: services/relay/src/lib.rs.
mod Rendezvous
mod Registrations
mod Waiting
mod Sockets
mod Waits
mod Served
mod Connections
mod Examples
