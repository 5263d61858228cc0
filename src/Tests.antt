-- ===== src/Tests.antt =====
-- Concrete machines, databases and vaults, and the theorems of the other modules at them.
mod Machine
mod Disk
mod Sample
mod Wires
mod VaultCases
mod ApiCases
mod EdgeCases
mod ProvisionCases
mod CommandCases
mod LifeCases
mod BackupCases
mod DepsCases
mod Neighbours
