-- ===== src/Explore.antt =====
-- src/explore: the explorer's graph search over any transition system, and the verdicts on it.
-- The search is modelled over the interface `TransitionSystem`. Diagnostics (rendered
-- counterexamples, doom states, hints) and fingerprints are texts and are not modelled.
pub mod Search
pub mod Contract
pub mod Check
pub mod Judgement
pub mod Reach
pub mod Invariant
pub mod Positions
pub mod Backward
pub mod Verdict
