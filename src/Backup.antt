-- ===== src/Backup.antt =====
-- src/octw/orchestrator/backup.py: archives of a tenant's directory.
pub mod Archives
pub mod Service
pub mod Newest
pub mod Restores
