-- ===== src/Rv32.antt =====
-- The in-order simulator, sw/ELE749_projet1-develop/src: decoder, immediates, instructions and steps.
pub mod Codes
pub mod Types
pub mod Decode
pub mod Immediate
pub mod Data
pub mod Base
pub mod Transfer
pub mod Machine
pub mod Compressed
pub mod Operands
pub mod Execute
pub mod Simulator
pub mod Safety
pub mod Unit
pub mod Scatter
pub mod Encoding
pub mod Undecoded
pub mod Run
pub mod Effect
pub mod Faults
pub mod Program
pub mod Straight
pub mod Halt
pub mod Formats
pub mod Kinds
pub mod RoundTrip
pub mod Whole
pub mod Shape
pub mod Sample
mod Tests
pub mod Joined
