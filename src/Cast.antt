-- ===== src/Cast.antt =====
-- The CASTV2 client, src/cast/.
pub mod Proto
pub mod Channel
