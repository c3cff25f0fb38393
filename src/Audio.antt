-- ===== src/Audio.antt =====
-- Framing of compressed audio, src/audio/.
pub mod Adts
pub mod Icy
