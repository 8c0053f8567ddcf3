-- ===== src/Rv32/Compressed.antt =====
-- The compressed instructions, sw/ELE749_projet1-develop/src/instructionsRV32C.c. Each fills the
-- operands of a 32-bit instruction; the `malloc` of the record is taken to succeed.
use rv.Common.{◌==◌, if◌then◌else◌, ◌>>=◌, ℕ, ◌+◌, ◌*◌, ◌^◌, Bool, Option, some}
use rv.Proc.{ProcState, proc_read_reg, proc_get_pc}
use rv.Word.{u32}
use rv.Rv32.Data.{
  CrType, CiType, CssType, CiwType, ClType, CsType, CaType, CbType, CjType, put, move,
}
use rv.Rv32.Base.{
  shift_left_immediate, shift_right_immediate, shift_right_arith_imm, add, add_immediate, sub, xor,
  or, and, and_immediate, load_upper_imm,
}
use rv.Rv32.Transfer.{
  branch_equal, branch_not_equal, jump_and_link, jump_and_link_register, store_word, load_word,
}
use rv.Rv32.Machine.{Machine, Debugger, ebreak, on_proc}

-- `LR`, `SP` and `RP_SHIFT`
abbrev pub lr : ℕ
lr = 1

abbrev pub sp : ℕ
sp = 2

abbrev pub rp_shift : ℕ → ℕ
rp_shift x = x + 8

-- `imm * 4`
abbrev pub scaled : ℕ → ℕ
scaled imm = u32 (imm * 4)

module _ (little : Bool) where
  unfoldable pub c_load_word_stack_pointer : CiType → ProcState → Option ProcState
  c_load_word_stack_pointer d p =
      load_word little (record { imm = scaled d.imm; rs1 = sp; rd = d.rd_rs1 }) p

  unfoldable pub c_store_word_stack_pointer : CssType → ProcState → Option ProcState
  c_store_word_stack_pointer d p =
      store_word little (record { imm = scaled d.imm; rs2 = d.rs2; rs1 = sp }) p

  unfoldable pub c_load_word : ClType → ProcState → Option ProcState
  c_load_word d p =
      load_word little (record { imm = scaled d.imm; rs1 = rp_shift d.rs1_p; rd = rp_shift d.rd_p })
        p

  unfoldable pub c_store_word : CsType → ProcState → Option ProcState
  c_store_word d p =
      store_word little
        (record { imm = scaled d.imm; rs2 = rp_shift d.rs2_p; rs1 = rp_shift d.rs1_p }) p

unfoldable pub c_jump : CjType → ProcState → Option ProcState
c_jump d p = jump_and_link (record { imm = d.jumptarget; rd = 0 }) p

unfoldable pub c_jump_and_link : CjType → ProcState → Option ProcState
c_jump_and_link d p = do p' ← put lr (u32 (proc_get_pc p + 2)) p; some (move d.jumptarget p')

unfoldable pub c_jump_register : CrType → ProcState → Option ProcState
c_jump_register d p = jump_and_link_register (record { imm = 0; rs1 = d.rd_rs1; rd = 0 }) p

unfoldable pub c_jump_and_link_register : Debugger → CrType → Machine → Option Machine
c_jump_and_link_register debugger d m =
    if d.rd_rs1 == 0
    then ebreak debugger m
    else on_proc (λ p. do p' ← put lr (u32 (proc_get_pc p + 2)) p; c_jump_register d p') m

unfoldable pub c_branch_on_equal_zero : CbType → ProcState → Option ProcState
c_branch_on_equal_zero d p =
    branch_equal (record { imm = d.offset; rs2 = 0; rs1 = rp_shift d.rs1_p }) p

unfoldable pub c_branch_not_equal_zero : CbType → ProcState → Option ProcState
c_branch_not_equal_zero d p =
    branch_not_equal (record { imm = d.offset; rs2 = 0; rs1 = rp_shift d.rs1_p }) p

unfoldable pub c_load_immediate : CiType → ProcState → Option ProcState
c_load_immediate d p = add_immediate (record { imm = d.imm; rs1 = 0; rd = d.rd_rs1 }) p

unfoldable pub c_load_upper_immediate : CiType → ProcState → Option ProcState
c_load_upper_immediate d p = load_upper_imm (record { imm = u32 (d.imm * 2 ^ 12); rd = d.rd_rs1 }) p

unfoldable pub c_add_immediate : CiType → ProcState → Option ProcState
c_add_immediate d p = add_immediate (record { imm = d.imm; rs1 = d.rd_rs1; rd = d.rd_rs1 }) p

unfoldable pub c_addi16_stack_pointer : CiType → ProcState → Option ProcState
c_addi16_stack_pointer d p = add_immediate (record { imm = d.imm; rs1 = d.rd_rs1; rd = d.rd_rs1 }) p

unfoldable pub c_addi4_stack_pointer : CiwType → ProcState → Option ProcState
c_addi4_stack_pointer d p = do
  p' ← add_immediate (record { imm = d.imm; rs1 = sp; rd = sp }) p
  a ← proc_read_reg sp p'
  put (rp_shift d.rd_p) a p'

unfoldable pub c_shift_left_logical_immediate : CiType → ProcState → Option ProcState
c_shift_left_logical_immediate d p =
    shift_left_immediate (record { imm = d.imm; rs1 = d.rd_rs1; rd = d.rd_rs1 }) p

unfoldable pub c_shift_right_logical_immediate : CbType → ProcState → Option ProcState
c_shift_right_logical_immediate d p =
    shift_right_immediate (record { imm = d.offset; rs1 = rp_shift d.rs1_p; rd = rp_shift d.rs1_p })
      p

unfoldable pub c_shift_right_arithmetic_immediate : CbType → ProcState → Option ProcState
c_shift_right_arithmetic_immediate d p =
    shift_right_arith_imm (record { imm = d.offset; rs1 = rp_shift d.rs1_p; rd = rp_shift d.rs1_p })
      p

unfoldable pub c_and_immediate : CbType → ProcState → Option ProcState
c_and_immediate d p =
    and_immediate (record { imm = d.offset; rs1 = rp_shift d.rs1_p; rd = rp_shift d.rs1_p }) p

unfoldable pub c_move : CrType → ProcState → Option ProcState
c_move d p = add (record { rs2 = d.rs2; rs1 = 0; rd = d.rd_rs1 }) p

unfoldable pub c_add : CrType → ProcState → Option ProcState
c_add d p = add (record { rs2 = d.rs2; rs1 = d.rd_rs1; rd = d.rd_rs1 }) p

unfoldable pub c_and : CaType → ProcState → Option ProcState
c_and d p =
    and (record { rs2 = rp_shift d.rs2_p; rs1 = rp_shift d.rd_p_rs1_p; rd = rp_shift d.rd_p_rs1_p })
      p

unfoldable pub c_or : CaType → ProcState → Option ProcState
c_or d p =
    or (record { rs2 = rp_shift d.rs2_p; rs1 = rp_shift d.rd_p_rs1_p; rd = rp_shift d.rd_p_rs1_p })
      p

unfoldable pub c_xor : CaType → ProcState → Option ProcState
c_xor d p =
    xor (record { rs2 = rp_shift d.rs2_p; rs1 = rp_shift d.rd_p_rs1_p; rd = rp_shift d.rd_p_rs1_p })
      p

unfoldable pub c_sub : CaType → ProcState → Option ProcState
c_sub d p =
    sub (record { rs2 = rp_shift d.rs2_p; rs1 = rp_shift d.rd_p_rs1_p; rd = rp_shift d.rd_p_rs1_p })
      p
