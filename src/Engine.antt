-- ===== src/Engine.antt =====
-- The engine's side of the dumper under src/engine/src.
pub mod Writer
