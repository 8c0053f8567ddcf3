-- ===== src/Debugger.antt =====
-- The interactive debugger of the in-order simulator, sw/ELE749_projet1-develop/src/debugger.c.
pub mod Text
pub mod Breaks
pub mod Names
pub mod Commands
pub mod Session
pub mod Sound
pub mod Safety
pub mod Lines
pub mod Shrinks
pub mod Fuel
pub mod Endless
pub mod Ends
pub mod Hit
pub mod Memory
pub mod Undo
pub mod Words
pub mod Hex
pub mod Table
mod Tests
