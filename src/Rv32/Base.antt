-- ===== src/Rv32/Base.antt =====
-- The register instructions of sw/ELE749_projet1-develop/src/instructionsRV32E.c. A result `none`
-- is undefined behaviour: a shift by a negative number or by 32 and more, `abs` of INT32_MIN.
-- Sums, differences and left shifts wrap.
use rv.Common.{
  ltb, ◌>>=◌, ◌>>◌, require, ◌+◌, ◌-◌, ◌*◌, ◌/◌, ◌^◌, bit_and, bit_or, bit_xor, Option, some,
}
use rv.Word.{u32, sra32}
use rv.Alu.{slt, from_bool}
use rv.Proc.{ProcState, proc_read_reg, proc_get_pc}
use rv.Rv32.Data.{RType, IType, UType, put, abs_int}

unfoldable pub shift_left : RType → ProcState → Option ProcState
shift_left d p = do
  a ← proc_read_reg d.rs1 p
  b ← proc_read_reg d.rs2 p
  value ← require (ltb b 32) >> some (u32 (a * 2 ^ b))
  put d.rd value p

unfoldable pub shift_left_immediate : IType → ProcState → Option ProcState
shift_left_immediate d p = do
  a ← proc_read_reg d.rs1 p
  value ← require (ltb d.imm 32) >> some (u32 (a * 2 ^ d.imm))
  put d.rd value p

unfoldable pub shift_right : RType → ProcState → Option ProcState
shift_right d p = do
  a ← proc_read_reg d.rs1 p
  b ← proc_read_reg d.rs2 p
  value ← require (ltb b 32) >> some (a / 2 ^ b)
  put d.rd value p

unfoldable pub shift_right_immediate : IType → ProcState → Option ProcState
shift_right_immediate d p = do
  a ← proc_read_reg d.rs1 p
  value ← require (ltb d.imm 32) >> some (a / 2 ^ d.imm)
  put d.rd value p

unfoldable pub shift_right_arithmetic : RType → ProcState → Option ProcState
shift_right_arithmetic d p = do
  a ← proc_read_reg d.rs1 p
  b ← proc_read_reg d.rs2 p
  value ← require (ltb b 32) >> some (sra32 a b)
  put d.rd value p

unfoldable pub shift_right_arith_imm : IType → ProcState → Option ProcState
shift_right_arith_imm d p = do
  a ← proc_read_reg d.rs1 p
  value ← require (ltb d.imm 32) >> some (sra32 a d.imm)
  put d.rd value p

unfoldable pub add : RType → ProcState → Option ProcState
add d p = do a ← proc_read_reg d.rs1 p; b ← proc_read_reg d.rs2 p; put d.rd (u32 (a + b)) p

unfoldable pub add_immediate : IType → ProcState → Option ProcState
add_immediate d p = do a ← proc_read_reg d.rs1 p; put d.rd (u32 (a + d.imm)) p

unfoldable pub sub : RType → ProcState → Option ProcState
sub d p = do a ← proc_read_reg d.rs1 p; b ← proc_read_reg d.rs2 p; put d.rd (u32 (a + 2 ^ 32 - b)) p

unfoldable pub xor : RType → ProcState → Option ProcState
xor d p = do a ← proc_read_reg d.rs1 p; b ← proc_read_reg d.rs2 p; put d.rd (bit_xor a b) p

unfoldable pub xor_immediate : IType → ProcState → Option ProcState
xor_immediate d p = do a ← proc_read_reg d.rs1 p; put d.rd (bit_xor a d.imm) p

unfoldable pub or : RType → ProcState → Option ProcState
or d p = do a ← proc_read_reg d.rs1 p; b ← proc_read_reg d.rs2 p; put d.rd (bit_or a b) p

unfoldable pub or_immediate : IType → ProcState → Option ProcState
or_immediate d p = do a ← proc_read_reg d.rs1 p; put d.rd (bit_or a d.imm) p

unfoldable pub and : RType → ProcState → Option ProcState
and d p = do a ← proc_read_reg d.rs1 p; b ← proc_read_reg d.rs2 p; put d.rd (bit_and a b) p

unfoldable pub and_immediate : IType → ProcState → Option ProcState
and_immediate d p = do a ← proc_read_reg d.rs1 p; put d.rd (bit_and a d.imm) p

unfoldable pub set_less_than : RType → ProcState → Option ProcState
set_less_than d p = do
  a ← proc_read_reg d.rs1 p
  b ← proc_read_reg d.rs2 p
  put d.rd (from_bool (slt a b)) p

unfoldable pub set_less_than_immediate : IType → ProcState → Option ProcState
set_less_than_immediate d p = do a ← proc_read_reg d.rs1 p; put d.rd (from_bool (slt a d.imm)) p

unfoldable pub set_less_than_unsigned : RType → ProcState → Option ProcState
set_less_than_unsigned d p = do
  a ← proc_read_reg d.rs1 p
  b ← proc_read_reg d.rs2 p
  a' ← abs_int a
  b' ← abs_int b
  put d.rd (from_bool (ltb a' b')) p

unfoldable pub set_less_than_immediate_unsigned : IType → ProcState → Option ProcState
set_less_than_immediate_unsigned d p = do
  a ← proc_read_reg d.rs1 p
  a' ← abs_int a
  b' ← abs_int d.imm
  put d.rd (from_bool (ltb a' b')) p

unfoldable pub load_upper_imm : UType → ProcState → Option ProcState
load_upper_imm d p = put d.rd d.imm p

unfoldable pub add_upper_imm_to_pc : UType → ProcState → Option ProcState
add_upper_imm_to_pc d p = put d.rd (u32 (d.imm + proc_get_pc p)) p
