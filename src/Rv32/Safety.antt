-- ===== src/Rv32/Safety.antt =====
-- What every instruction of the in-order simulator leaves of the processor,
-- sw/ELE749_projet1-develop/src/decoder.c and simulator.c.
pub mod Sound
pub mod Instructions
pub mod Accesses
pub mod Compressed
pub mod Machine
pub mod Dispatch
pub mod Round
