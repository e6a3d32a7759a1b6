-- ===== src/Sync.antt =====
-- base/: waiting for another thread, and starting one.
pub mod Mutex
pub mod Latch
pub mod Thread
