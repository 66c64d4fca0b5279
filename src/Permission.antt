-- ===== src/Permission.antt =====
-- acp/permission.go: permission requests of an agent, answered by a host within one turn.
pub mod Request
pub mod Coordinator
pub mod Answer
pub mod Run
