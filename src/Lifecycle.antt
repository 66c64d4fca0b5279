-- ===== src/Lifecycle.antt =====
-- acp/lifecycle.go: managed sessions and their manager, and the redaction of diagnostics.
pub mod Redact
pub mod Outcome
pub mod Session
pub mod Run
pub mod Manager
