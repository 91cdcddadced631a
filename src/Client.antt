-- ===== src/Client.antt =====
-- The desktop client of apps/client.
pub mod Auth
pub mod Input
pub mod Assembler
pub mod AnnexB
pub mod Decoder
pub mod Strided
pub mod Playback
