-- ===== src/Models.antt =====
-- The data of src/octw/models: enumerations and the records that the services pass around.
pub mod Tenant
pub mod Provider
pub mod Secret
