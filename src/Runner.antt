-- ===== src/Runner.antt =====
-- programs/run.c: vmnet-run.
pub mod Calls
pub mod Globals
pub mod Main
pub mod Arguments
pub mod CommandLine
pub mod Handover
pub mod Processes
