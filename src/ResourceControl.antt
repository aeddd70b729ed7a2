-- ===== src/ResourceControl.antt =====
-- internal/resourcecontrol: the resource protection of the gateway.
pub mod Policy
pub mod Metrics
pub mod History
pub mod Controller
pub mod Monitor
pub mod Admission
pub mod Interleaving
pub mod Audit
pub mod Tests
