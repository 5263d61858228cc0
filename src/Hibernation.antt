-- ===== src/Hibernation.antt =====
-- src/octw/orchestrator/hibernation.py: the scheduler that pauses and stops idle tenants.
pub mod Scheduler
pub mod Policy
pub mod Settles
pub mod Coherence
pub mod Returns
pub mod Idle
pub mod Repeats
pub mod Loop
pub mod Stops
