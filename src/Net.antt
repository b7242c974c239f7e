-- ===== src/Net.antt =====
-- crates/ac-net: the network layer.
pub mod Identity
pub mod Username
pub mod Attest
pub mod Admission
pub mod Budget
pub mod Connectivity
pub mod AdmittedPeers
