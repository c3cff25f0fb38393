-- ===== src/Voice.antt =====
-- Voice search, src/voice.
pub mod Rank
mod Query
