-- ===== src/Gc.antt =====
-- runtime/src/gc.c: the conservative mark and sweep collector, by parts.
pub mod Spans
pub mod Mark
pub mod Sweep
pub mod Roots
pub mod World
mod Tests
