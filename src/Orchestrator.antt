-- ===== src/Orchestrator.antt =====
-- src/octw/orchestrator/docker_orch.py: the methods of `DockerOrchestrator`. Their state is that of
-- the machine alone.
pub mod Names
pub mod Dirs
pub mod Networks
pub mod Spec
pub mod Containers
pub mod Init
pub mod Configure
pub mod Sections
pub mod Configured
pub mod Laws
pub mod Keeps
pub mod Apart
pub mod Isolation
pub mod Onboarding
pub mod Lifecycle
pub mod Serving
pub mod Environment
