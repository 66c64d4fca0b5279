-- ===== src/Tests.antt =====
-- Runs of the models at concrete inputs, and the theorems about them applied there.
mod Turns
mod Signals
mod Permissions
mod Sessions
mod Environments
mod Wrappers
mod Bridge
mod Launches
mod Deliveries
mod Shutdowns
mod Transports
