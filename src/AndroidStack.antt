-- ===== src/AndroidStack.antt =====
-- The Android app's side of the virtual network: crates/medium-android-netstack/src/lib.rs.
-- The calls of JNI and the loop around the tunnel's file are left out. A backend, a TCP stream, a
-- WebSocket or a UDP session, is what was written to it and what its next writes and reads do; when these
-- lists end, it would block. The calls of the virtual network's stack are recorded, and succeed.
pub mod Backends
pub mod Events
pub mod Consistency
pub mod Runs
pub mod Writes
pub mod Paths
pub mod Examples
