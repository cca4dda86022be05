-- ===== src/Petri.antt =====
-- src/petri: the Petri-net engine.
pub mod Net
pub mod State
pub mod Build
pub mod Engine
pub mod Sync
pub mod Channels
pub mod Threads
pub mod Calls
pub mod Fire
pub mod System
pub mod Safety
pub mod WellFormed
