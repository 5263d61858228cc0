-- ===== src/Edge.antt =====
-- src/octw/edge/proxy.py: which requests the proxy lets through to a tenant.
pub mod Slugs
pub mod Routed
pub mod Proxy
pub mod Urls
pub mod Headers
pub mod Refuses
pub mod Fetches
pub mod Unknown
pub mod Forwards
pub mod Reaches
pub mod Keeps
