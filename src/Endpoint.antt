-- ===== src/Endpoint.antt =====
-- internal/controller/endpoint/endpoint.go: the managed reconciler's client for Endpoints.
pub mod Settings
pub mod Matching
pub mod Observation
pub mod Binding
pub mod Handlers
