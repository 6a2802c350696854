-- ===== src/Text.antt =====
-- runtime/src/strings.c, by parts.
pub mod Ops
pub mod Buffer
pub mod Format
mod Tests
