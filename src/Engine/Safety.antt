-- ===== src/Engine/Safety.antt =====
-- The phases of sw/src/engine.c, a cycle and the set-up, and valid engines.
pub mod Commit
pub mod WriteBack
pub mod Issue
pub mod Dispatch
pub mod Cycle
pub mod Init
