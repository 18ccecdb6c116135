-- ===== src/Scenarios.antt =====
-- Concrete systems, and the theorems at concrete inputs.
mod Machine
mod VmMachine
mod Forwarding
mod FromVm
mod CommandLine
mod Runs
mod Handover
mod Sharing
mod Startup
mod Timestamp
mod RunnerMain
mod Reports
mod Paths
