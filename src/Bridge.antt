-- ===== src/Bridge.antt =====
-- acp/ndjsonclient.go and what it calls of package acp: the client of one agent process.
pub mod Rpc
pub mod Frame
pub mod Client
pub mod Reader
pub mod Servers
pub mod Launch
