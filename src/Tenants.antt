-- ===== src/Tenants.antt =====
-- src/octw/orchestrator/tenant_service.py: the life of tenants and their members.
pub mod Rows
pub mod Service
pub mod Members
pub mod Roles
pub mod Deletes
pub mod Keeps
pub mod Machine
pub mod Listing
pub mod Runs
pub mod Wakes
pub mod Slugs
pub mod Columns
