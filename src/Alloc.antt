-- ===== src/Alloc.antt =====
-- runtime/src/alloc.c: the arena allocator, by parts.
pub mod State
pub mod Sizes
pub mod Chunk
pub mod Bins
pub mod Search
pub mod Api
pub mod Create
mod Tests
pub mod Tiles
