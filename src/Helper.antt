-- ===== src/Helper.antt =====
-- vmnet-helper (programs/helper.c).
pub mod Endpoint
pub mod HostToVm
pub mod FromHost
pub mod VmToHost
pub mod Globals
pub mod Socket
pub mod Interface
pub mod Events
pub mod Timestamp
pub mod Report
pub mod Startup
pub mod Discipline
