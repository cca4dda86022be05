-- ===== src/Examples.antt =====
-- The theorems at concrete systems and programs.
mod Explorer
mod Engine
mod Machine
mod Net
mod Names
