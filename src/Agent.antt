-- ===== src/Agent.antt =====
-- The agent of apps/agent, which captures and encodes a machine's screen.
pub mod AnnexB
pub mod Floats
pub mod Audio
pub mod Input
pub mod Service
