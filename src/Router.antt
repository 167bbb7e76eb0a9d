-- ===== src/Router.antt =====
-- internal/router/router.go: the one route that the model router serves, and the requests on it.
pub mod Copy
pub mod Lease
pub mod Eligible
pub mod Refresh
pub mod Proxy
