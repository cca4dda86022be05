-- ===== src/Sem.antt =====
-- src/sem: the resolved program, its values and expressions, and the transition-system interface
-- that the interpreter and the explorer share.
pub mod Outcome
pub mod Results
pub mod Value
pub mod Eval
pub mod Program
pub mod Monitor
pub mod System
