-- ===== src/Interp/Ownership.antt =====
-- src/interp/exec.rs: who may change a mutex, a semaphore or a channel, for the steps of Step and
-- Resume.
pub mod Relation
pub mod Keeping
pub mod Threads
pub mod Respect
pub mod Sync
pub mod Channels
pub mod Calls
pub mod Resume
pub mod Successors
pub mod Safety
