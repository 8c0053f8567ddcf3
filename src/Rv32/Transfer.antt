-- ===== src/Rv32/Transfer.antt =====
-- The loads, stores, branches and jumps of sw/ELE749_projet1-develop/src/instructionsRV32E.c. A
-- result `none` is undefined behaviour: the use of a variable that was not set, `abs` of INT32_MIN.
use rv.Common.{ltb, leb, ◌==◌, if◌then◌else◌, ◌>>=◌, ◌+◌, ◌%◌, ◌^◌, Bool, not, Option, some}
use rv.Word.{u8, u32}
use rv.Alu.{slt}
use rv.Proc.{ProcState, proc_read_reg, proc_get_pc, proc_set_pc}
use rv.Rv32.Data.{
  IType, SType, BType, JType, put, move, sext8, sext16, abs_int, read_value, write_value,
}

module _ (little : Bool) where
  unfoldable pub load_byte : IType → ProcState → Option ProcState
  load_byte d p = do
    a ← proc_read_reg d.rs1 p
    v ← read_value little 1 (u32 (d.imm + a)) p
    put d.rd (sext8 v) p

  unfoldable pub load_halfword : IType → ProcState → Option ProcState
  load_halfword d p = do
    a ← proc_read_reg d.rs1 p
    v ← read_value little 2 (u32 (d.imm + a)) p
    put d.rd (sext16 v) p

  unfoldable pub load_word : IType → ProcState → Option ProcState
  load_word d p = do
    a ← proc_read_reg d.rs1 p
    v ← read_value little 4 (u32 (d.imm + a)) p
    put d.rd v p

  unfoldable pub load_byte_unsigned : IType → ProcState → Option ProcState
  load_byte_unsigned d p = do
    a ← proc_read_reg d.rs1 p
    v ← read_value little 1 (u32 (d.imm + a)) p
    put d.rd v p

  unfoldable pub load_half_unsigned : IType → ProcState → Option ProcState
  load_half_unsigned d p = do
    a ← proc_read_reg d.rs1 p
    v ← read_value little 2 (u32 (d.imm + a)) p
    put d.rd v p

  unfoldable pub store_byte : SType → ProcState → Option ProcState
  store_byte d p = do
    a ← proc_read_reg d.rs1 p
    v ← proc_read_reg d.rs2 p
    write_value little 1 (u32 (d.imm + a)) (u8 v) p

  unfoldable pub store_halfword : SType → ProcState → Option ProcState
  store_halfword d p = do
    a ← proc_read_reg d.rs1 p
    v ← proc_read_reg d.rs2 p
    write_value little 2 (u32 (d.imm + a)) (v % 2 ^ 16) p

  unfoldable pub store_word : SType → ProcState → Option ProcState
  store_word d p = do
    a ← proc_read_reg d.rs1 p
    v ← proc_read_reg d.rs2 p
    write_value little 4 (u32 (d.imm + a)) v p

unfoldable pub branch_equal : BType → ProcState → Option ProcState
branch_equal d p = do
  a ← proc_read_reg d.rs1 p
  b ← proc_read_reg d.rs2 p
  some (move (if a == b then d.imm else 4) p)

unfoldable pub branch_not_equal : BType → ProcState → Option ProcState
branch_not_equal d p = do
  a ← proc_read_reg d.rs1 p
  b ← proc_read_reg d.rs2 p
  some (move (if not (a == b) then d.imm else 4) p)

unfoldable pub branch_less_than : BType → ProcState → Option ProcState
branch_less_than d p = do
  a ← proc_read_reg d.rs1 p
  b ← proc_read_reg d.rs2 p
  some (move (if slt a b then d.imm else 4) p)

unfoldable pub branch_more_or_equal : BType → ProcState → Option ProcState
branch_more_or_equal d p = do
  a ← proc_read_reg d.rs1 p
  b ← proc_read_reg d.rs2 p
  some (move (if not (slt a b) then d.imm else 4) p)

unfoldable pub branch_less_than_unsigned : BType → ProcState → Option ProcState
branch_less_than_unsigned d p = do
  a ← proc_read_reg d.rs1 p
  b ← proc_read_reg d.rs2 p
  a' ← abs_int a
  b' ← abs_int b
  some (move (if ltb a' b' then d.imm else 4) p)

unfoldable pub branch_more_or_equal_unsigned : BType → ProcState → Option ProcState
branch_more_or_equal_unsigned d p = do
  a ← proc_read_reg d.rs1 p
  b ← proc_read_reg d.rs2 p
  a' ← abs_int a
  b' ← abs_int b
  some (move (if leb b' a' then d.imm else 4) p)

unfoldable pub jump_and_link : JType → ProcState → Option ProcState
jump_and_link d p = do p' ← put d.rd (u32 (proc_get_pc p + 4)) p; some (move d.imm p')

-- The register is read after the link is written.
unfoldable pub jump_and_link_register : IType → ProcState → Option ProcState
jump_and_link_register d p = do
  p' ← put d.rd (u32 (proc_get_pc p + 4)) p
  a ← proc_read_reg d.rs1 p'
  some (proc_set_pc (u32 (d.imm + a)) p').1
