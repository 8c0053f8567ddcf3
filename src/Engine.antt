-- ===== src/Engine.antt =====
-- The out-of-order engine, sw/src/engine.c: its structures, its phases, a cycle, and its set-up.
pub mod State
pub mod Commit
pub mod WriteBack
pub mod Issue
pub mod Dispatch
pub mod Run
pub mod Init
pub mod Invariant
pub mod Safety
pub mod Forward
pub mod Served
pub mod Limits
pub mod Loop
pub mod Subtract
mod Example
mod Tests
