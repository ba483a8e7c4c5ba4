-- ===== src/Emit.antt =====
-- The emitters under src/emit/src.
pub mod Usmap
pub mod Util
