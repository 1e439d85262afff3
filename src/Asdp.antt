-- ===== src/Asdp.antt =====
-- internal/asdp: the control plane's side of the agent data-plane protocol.
pub mod Protocol
pub mod Snapshot
pub mod Server
pub mod Handshake
pub mod Distributor
pub mod Service
