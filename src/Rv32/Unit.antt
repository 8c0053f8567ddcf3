-- ===== src/Rv32/Unit.antt =====
-- The register instructions of sw/ELE749_projet1-develop/src/instructionsRV32E.c beside the
-- arithmetic unit of the out-of-order simulator, sw/src/unit.c.
use rv.Common.{◌>>=◌, ℕ, ◌≡◌, refl, Option}
use rv.Alu.{
  f10_add, f10_sll, f10_slt, f10_xor, f10_srl, f10_or, f10_and, f10_sub, f10_sra, alu_exec,
}
use rv.Proc.{ProcState, proc_read_reg}
use rv.Rv32.Data.{RType, IType, put}
use rv.Rv32.Base.{
  shift_left, shift_left_immediate, shift_right, shift_right_immediate, shift_right_arithmetic,
  shift_right_arith_imm, add, add_immediate, sub, xor, xor_immediate, or, or_immediate, and,
  and_immediate, set_less_than, set_less_than_immediate,
}

-- What an instruction does that takes its result from the arithmetic unit.
abbrev pub of_registers : ℕ → RType → ProcState → Option ProcState
of_registers f10 d p = do
  a ← proc_read_reg d.rs1 p
  b ← proc_read_reg d.rs2 p
  value ← alu_exec f10 a b
  put d.rd value p

abbrev pub of_immediate : ℕ → IType → ProcState → Option ProcState
of_immediate f10 d p = do a ← proc_read_reg d.rs1 p; value ← alu_exec f10 a d.imm; put d.rd value p

pub registers-alu_exec :
    (d : RType) (p : ProcState)
    → (shift_left d p ≡ of_registers f10_sll d p)
      × (shift_right d p ≡ of_registers f10_srl d p)
      × (shift_right_arithmetic d p ≡ of_registers f10_sra d p)
      × (add d p ≡ of_registers f10_add d p)
      × (sub d p ≡ of_registers f10_sub d p)
      × (xor d p ≡ of_registers f10_xor d p)
      × (or d p ≡ of_registers f10_or d p)
      × (and d p ≡ of_registers f10_and d p)
      × (set_less_than d p ≡ of_registers f10_slt d p)
unfolding shift_left shift_right shift_right_arithmetic add sub xor or and set_less_than alu_exec
registers-alu_exec d p = (refl, refl, refl, refl, refl, refl, refl, refl, refl)

pub immediate-alu_exec :
    (d : IType) (p : ProcState)
    → (shift_left_immediate d p ≡ of_immediate f10_sll d p)
      × (shift_right_immediate d p ≡ of_immediate f10_srl d p)
      × (shift_right_arith_imm d p ≡ of_immediate f10_sra d p)
      × (add_immediate d p ≡ of_immediate f10_add d p)
      × (xor_immediate d p ≡ of_immediate f10_xor d p)
      × (or_immediate d p ≡ of_immediate f10_or d p)
      × (and_immediate d p ≡ of_immediate f10_and d p)
      × (set_less_than_immediate d p ≡ of_immediate f10_slt d p)
unfolding shift_left_immediate shift_right_immediate shift_right_arith_imm add_immediate
    xor_immediate or_immediate and_immediate set_less_than_immediate alu_exec
immediate-alu_exec d p = (refl, refl, refl, refl, refl, refl, refl, refl)
