-- ===== src/Explore/Verdict.antt =====
-- What the verdicts of the explorer mean for the transition system.
pub mod Graph
pub mod Properties
pub mod Doomed
pub mod Failures
pub mod Report
pub mod Refuted
pub mod Total
