-- ===== src/Agent/Input.antt =====
-- The injection of received events in apps/agent, on both platforms.
pub mod Macos
pub mod Windows
