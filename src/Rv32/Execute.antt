-- ===== src/Rv32/Execute.antt =====
-- `runInstruction` of sw/ELE749_projet1-develop/src/decoder.c, second part: the dispatch.
use rv.Common.{◌==◌, if◌then◌else◌, ◌>>=◌, ℕ, Bool, Option, some}
use rv.Proc.{ProcState}
use rv.Rv32.Codes.{
  Inst, InstSet, field, rv32e_op, rv32e_op_imm, rv32e_op_branch, rv32e_op_lui, rv32e_op_auipc,
  rv32e_op_jal, rv32e_op_jalr, rv32e_op_load, rv32e_op_store, rv32e_op_os,
}
use rv.Rv32.Types.{decode_instruction_length, decode_instruction_type}
use rv.Rv32.Decode.{decode_instruction}
use rv.Rv32.Data.{RType, IType, SType, BType}
use rv.Rv32.Base.{
  shift_left, shift_left_immediate, shift_right, shift_right_immediate, shift_right_arithmetic,
  shift_right_arith_imm, add, add_immediate, sub, xor, xor_immediate, or, or_immediate, and,
  and_immediate, set_less_than, set_less_than_immediate, set_less_than_unsigned,
  set_less_than_immediate_unsigned, load_upper_imm, add_upper_imm_to_pc,
}
use rv.Rv32.Transfer.{
  branch_equal, branch_not_equal, branch_less_than, branch_more_or_equal, branch_less_than_unsigned,
  branch_more_or_equal_unsigned, jump_and_link, jump_and_link_register, store_byte, load_byte,
  store_halfword, load_halfword, store_word, load_word, load_byte_unsigned, load_half_unsigned,
}
use rv.Rv32.Compressed.{
  c_jump, c_jump_and_link, c_jump_register, c_jump_and_link_register, c_branch_on_equal_zero,
  c_branch_not_equal_zero, c_load_immediate, c_load_upper_immediate, c_add_immediate,
  c_addi16_stack_pointer, c_addi4_stack_pointer, c_shift_left_logical_immediate,
  c_shift_right_logical_immediate, c_shift_right_arithmetic_immediate, c_and_immediate, c_move,
  c_add, c_and, c_or, c_xor, c_sub, c_load_word, c_store_word, c_load_word_stack_pointer,
  c_store_word_stack_pointer,
}
use rv.Rv32.Machine.{Machine, Debugger, ecall, ebreak, on_proc}
use rv.Rv32.Operands.{
  Operands, base_operands, compressed_operands, r_set, i_set, s_set, b_set, u_set, j_set, cr_set,
  ci_set, css_set, ciw_set, cl_set, cs_set, ca_set, cb_set, cj_set,
}

-- RV32E_OP: the `case` of ADD and SUB has no `break` before that of SLL, and the `case` of SRL and
-- SRA none before that of OR.
unfoldable pub run_op : ℕ → ℕ → RType → ProcState → Option ProcState
run_op f3 f7 d p =
    if f3 == 0b000
    then (do
      p' ← (if f7 == 0x00 then add d p else if f7 == 0x20 then sub d p else some p)
      shift_left d p')
    else if f3 == 0b001
    then shift_left d p
    else if f3 == 0b010
    then set_less_than d p
    else if f3 == 0b011
    then set_less_than_unsigned d p
    else if f3 == 0b100
    then xor d p
    else if f3 == 0b101
    then (do
      p' ←
          (if f7 == 0x00
            then shift_right d p
            else if f7 == 0x20
            then shift_right_arithmetic d p
            else some p)
      or d p')
    else if f3 == 0b110
    then or d p
    else if f3 == 0b111
    then and d p
    else some p

unfoldable pub run_op_imm : ℕ → ℕ → IType → ProcState → Option ProcState
run_op_imm f3 f7 d p =
    if f3 == 0b000
    then add_immediate d p
    else if f3 == 0b001
    then shift_left_immediate d p
    else if f3 == 0b010
    then set_less_than_immediate d p
    else if f3 == 0b011
    then set_less_than_immediate_unsigned d p
    else if f3 == 0b100
    then xor_immediate d p
    else if f3 == 0b101
    then (if f7 == 0x00
        then shift_right_immediate d p
        else if f7 == 0x20
        then shift_right_arith_imm d p
        else some p)
    else if f3 == 0b110
    then or_immediate d p
    else if f3 == 0b111
    then and_immediate d p
    else some p

unfoldable pub run_branch : ℕ → BType → ProcState → Option ProcState
run_branch f3 d p =
    if f3 == 0b000
    then branch_equal d p
    else if f3 == 0b001
    then branch_not_equal d p
    else if f3 == 0b100
    then branch_less_than d p
    else if f3 == 0b101
    then branch_more_or_equal d p
    else if f3 == 0b110
    then branch_less_than_unsigned d p
    else if f3 == 0b111
    then branch_more_or_equal_unsigned d p
    else some p

module _ (little : Bool) where
  unfoldable pub run_load : ℕ → IType → ProcState → Option ProcState
  run_load f3 d p =
      if f3 == 0b000
      then load_byte little d p
      else if f3 == 0b001
      then load_halfword little d p
      else if f3 == 0b010
      then load_word little d p
      else if f3 == 0b100
      then load_byte_unsigned little d p
      else if f3 == 0b101
      then load_half_unsigned little d p
      else some p

  unfoldable pub run_store : ℕ → SType → ProcState → Option ProcState
  run_store f3 d p =
      if f3 == 0b000
      then store_byte little d p
      else if f3 == 0b001
      then store_halfword little d p
      else if f3 == 0b010
      then store_word little d p
      else some p

module _ (little : Bool) (debugger : Debugger) where
  unfoldable pub run_base : ℕ → Operands → Machine → Option Machine
  run_base w ops m =
      let opcode = field 0 7 w in
      let f3 = field 12 3 w in
      let f7 = field 25 6 w in
      if opcode == rv32e_op
      then (do d ← r_set ops; on_proc (run_op f3 f7 d) m)
      else if opcode == rv32e_op_imm
      then (do d ← i_set ops; on_proc (run_op_imm f3 f7 d) m)
      else if opcode == rv32e_op_branch
      then (do d ← b_set ops; on_proc (run_branch f3 d) m)
      else if opcode == rv32e_op_lui
      then (do d ← u_set ops; on_proc (load_upper_imm d) m)
      else if opcode == rv32e_op_auipc
      then (do d ← u_set ops; on_proc (add_upper_imm_to_pc d) m)
      else if opcode == rv32e_op_jal
      then (do d ← j_set ops; on_proc (jump_and_link d) m)
      else if opcode == rv32e_op_jalr
      then (do d ← i_set ops; on_proc (jump_and_link_register d) m)
      else if opcode == rv32e_op_load
      then (do d ← i_set ops; on_proc (run_load little f3 d) m)
      else if opcode == rv32e_op_store
      then (do d ← s_set ops; on_proc (run_store little f3 d) m)
      else if opcode == rv32e_op_os
      then (if field 20 1 w == 1 then ebreak debugger m else some (ecall m))
      else some m

  unfoldable pub run_compressed : Inst → Operands → Machine → Option Machine
  run_compressed Inst.c_addi4spn ops m = do d ← ciw_set ops; on_proc (c_addi4_stack_pointer d) m
  run_compressed Inst.c_lw ops m = do d ← cl_set ops; on_proc (c_load_word little d) m
  run_compressed Inst.c_sw ops m = do d ← cs_set ops; on_proc (c_store_word little d) m
  run_compressed Inst.c_addi ops m = do d ← ci_set ops; on_proc (c_add_immediate d) m
  run_compressed Inst.c_jal ops m = do d ← cj_set ops; on_proc (c_jump_and_link d) m
  run_compressed Inst.c_li ops m = do d ← ci_set ops; on_proc (c_load_immediate d) m
  run_compressed Inst.c_addi16sp ops m = do d ← ci_set ops; on_proc (c_addi16_stack_pointer d) m
  run_compressed Inst.c_lui ops m = do d ← ci_set ops; on_proc (c_load_upper_immediate d) m
  run_compressed Inst.c_srli ops m = do
    d ← cb_set ops
    on_proc (c_shift_right_logical_immediate d) m
  run_compressed Inst.c_srai ops m = do
    d ← cb_set ops
    on_proc (c_shift_right_arithmetic_immediate d) m
  run_compressed Inst.c_andi ops m = do d ← cb_set ops; on_proc (c_and_immediate d) m
  run_compressed Inst.c_sub ops m = do d ← ca_set ops; on_proc (c_sub d) m
  run_compressed Inst.c_xor ops m = do d ← ca_set ops; on_proc (c_xor d) m
  run_compressed Inst.c_or ops m = do d ← ca_set ops; on_proc (c_or d) m
  run_compressed Inst.c_and ops m = do d ← ca_set ops; on_proc (c_and d) m
  run_compressed Inst.c_j ops m = do d ← cj_set ops; on_proc (c_jump d) m
  run_compressed Inst.c_beqz ops m = do d ← cb_set ops; on_proc (c_branch_on_equal_zero d) m
  run_compressed Inst.c_bnez ops m = do d ← cb_set ops; on_proc (c_branch_not_equal_zero d) m
  run_compressed Inst.c_slli ops m = do d ← ci_set ops; on_proc (c_shift_left_logical_immediate d) m
  run_compressed Inst.c_lwsp ops m = do
    d ← ci_set ops
    on_proc (c_load_word_stack_pointer little d) m
  run_compressed Inst.c_jr ops m = do d ← cr_set ops; on_proc (c_jump_register d) m
  run_compressed Inst.c_mv ops m = do d ← cr_set ops; on_proc (c_move d) m
  run_compressed Inst.c_ebreak ops m = ebreak debugger m
  run_compressed Inst.c_jalr ops m = do d ← cr_set ops; c_jump_and_link_register debugger d m
  run_compressed Inst.c_add ops m = do d ← cr_set ops; on_proc (c_add d) m
  run_compressed Inst.c_swsp ops m = do
    d ← css_set ops
    on_proc (c_store_word_stack_pointer little d) m
  run_compressed _ ops m = some m

  unfoldable pub run_instruction : ℕ → Machine → Option Machine
  run_instruction w m = do
    type ← decode_instruction_type w
    inst ← decode_instruction w
    elim (decode_instruction_length w) [
      | InstSet.rv32e ↦ do ops ← base_operands type w; run_base w ops m
      | InstSet.rvc ↦ do ops ← compressed_operands type w; run_compressed inst ops m
    ]
