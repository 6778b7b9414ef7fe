-- ===== src/ControlPlane.antt =====
-- The control plane: the registry of nodes and the grants of sessions, services/control-plane/src.
pub mod Registry
pub mod Registering
pub mod Requests
pub mod Rows
pub mod Joins
pub mod Offers
pub mod Routes
pub mod Grants
pub mod Granted
pub mod Devices
mod Examples
