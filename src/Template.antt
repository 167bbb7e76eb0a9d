-- ===== src/Template.antt =====
-- internal/controller/template/template.go: the managed reconciler's client for Templates.
pub mod Settings
pub mod Handlers
