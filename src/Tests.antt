-- ===== src/Tests.antt =====
-- Runs at fixed inputs: of the host's side, of its command, of the agent, and of its services.
pub mod Host
pub mod Guest
pub mod Command
pub mod Service
