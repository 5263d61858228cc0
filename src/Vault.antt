-- ===== src/Vault.antt =====
-- src/octw/vault: envelope encryption and the service that keeps secrets in the database.
pub mod Envelope
pub mod Kek
pub mod Service
pub mod Sound
pub mod Store
pub mod Keeps
pub mod Opens
pub mod Environment
