-- ===== src/Api.antt =====
-- src/octw/api: the requests that the control plane answers.
pub mod Deps
pub mod Shared
pub mod Guard
pub mod TenantsRouter
pub mod RuntimeRouter
pub mod SecretsRouter
pub mod ProvisionRouter
pub mod InternalRouter
pub mod Provision
pub mod Provisioned
pub mod Refusals
pub mod ProvisionKeeps
pub mod Resolves
pub mod Internals
pub mod Auth
pub mod Tokens
pub mod Users
pub mod AuthRouter
pub mod Login
pub mod Signs
pub mod Requests
pub mod Access
pub mod Isolation
pub mod Untouched
pub mod Atomic
pub mod Keeps
