-- ===== src/Transport.antt =====
-- Messages as lines, the client's side of the rendezvous, and the lines of diagnostics:
-- crates/overlay-transport/src.
mod Framing
mod Peers
mod Diagnostics
mod Examples
