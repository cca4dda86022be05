-- ===== src/Petri/WellFormed.antt =====
-- src/petri/net.rs: a net in which keys and places correspond, and transitions name places that exist;
-- the translation of a program yields such nets.
pub mod Builder
pub mod Statements
pub mod Program
