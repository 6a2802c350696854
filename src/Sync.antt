-- ===== src/Sync.antt =====
-- The locks of runtime/src/sync.c, as machines of tasks that take one atomic action at a time.
pub mod RwMutex
pub mod Mutex
pub mod WaitGroup
