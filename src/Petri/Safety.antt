-- ===== src/Petri/Safety.antt =====
-- src/petri: what a firing does to the places of mutexes, semaphores and channels.
pub mod Relation
pub mod Keeping
pub mod Sync
pub mod Waits
pub mod Channels
pub mod Buffers
pub mod Threads
pub mod Calls
pub mod Fire
pub mod Reach
pub mod Reached
pub mod Exclusion
