-- ===== src/Vms.antt =====
-- extensions-controller/internal/common/vmsrest: what the controller asks of the VAST management
-- service.
pub mod Peers
pub mod Wait
pub mod Tenants
pub mod Policies
pub mod Ppath
