-- ===== src/TaskQueue.antt =====
-- runtime/src/queue.c: the ready queue and the rings of waiting tasks, by parts.
pub mod Fifo
pub mod Ring
mod Tests
