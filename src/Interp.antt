-- ===== src/Interp.antt =====
-- src/interp: the reference small-step interpreter. A successor of a state is computed by
-- functional updates of a copy, as the program does it with `clone`.
pub mod State
pub mod Access
pub mod Threads
pub mod Sync
pub mod Channels
pub mod Calls
pub mod Step
pub mod Resume
pub mod Machine
pub mod Notify
pub mod Completions
pub mod Ownership
