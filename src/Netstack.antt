-- ===== src/Netstack.antt =====
-- The virtual network of the apps: crates/medium-netstack/src/lib.rs.
pub mod Network
mod Hostnames
mod Addresses
mod Names
pub mod Slots
mod Pump
mod Streams
mod Device
mod Queues
mod Dns
mod Answers
mod Examples
mod SlotExamples
