-- ===== src/Rv32/Safety/Dispatch.antt =====
-- The compressed instructions on the whole machine, for `runInstruction` of
-- sw/ELE749_projet1-develop/src/decoder.c.
use rv.Word.{u32}
use rv.Common.{◌==◌, ◌>>=◌, ◌+◌, Bool, some}
use rv.Proc.{proc_get_pc}
use rv.Rv32.Codes.{Inst}
use rv.Rv32.Data.{CrType, put}
use rv.Rv32.Machine.{Machine, Debugger, ebreak}
use rv.Rv32.Operands.{
  Operands, cr_set, ci_set, css_set, ciw_set, cl_set, cs_set, ca_set, cb_set, cj_set,
}
use rv.Rv32.Safety.Sound.{Valid, Sound-then, put-Sound}
use rv.Rv32.Compressed.{
  lr, c_jump, c_jump_and_link, c_jump_register, c_jump_and_link_register, c_branch_on_equal_zero,
  c_branch_not_equal_zero, c_load_immediate, c_load_upper_immediate, c_add_immediate,
  c_addi16_stack_pointer, c_addi4_stack_pointer, c_shift_left_logical_immediate,
  c_shift_right_logical_immediate, c_shift_right_arithmetic_immediate, c_and_immediate, c_move,
  c_add, c_and, c_or, c_xor, c_sub, c_load_word, c_store_word, c_load_word_stack_pointer,
  c_store_word_stack_pointer,
}
use rv.Rv32.Execute.{run_compressed}
use rv.Rv32.Safety.Compressed.{
  c_load_word_stack_pointer-Sound, c_store_word_stack_pointer-Sound, c_load_word-Sound,
  c_store_word-Sound, c_jump-Sound, c_jump_and_link-Sound, c_jump_register-Sound,
  c_branch_on_equal_zero-Sound, c_branch_not_equal_zero-Sound, c_load_immediate-Sound,
  c_add_immediate-Sound, c_addi16_stack_pointer-Sound, c_load_upper_immediate-Sound,
  c_addi4_stack_pointer-Sound, c_shift_left_logical_immediate-Sound,
  c_shift_right_logical_immediate-Sound, c_shift_right_arithmetic_immediate-Sound,
  c_and_immediate-Sound, c_move-Sound, c_add-Sound, c_and-Sound, c_or-Sound, c_xor-Sound,
  c_sub-Sound,
}
use rv.Rv32.Safety.Machine.{
  SoundMachine, machine_bind, machine_some, machine_if, with_operands, KeepsValid,
  debugger_run-Sound,
}

module _ (little : Bool) (debugger : Debugger) where
  c_jump_and_link_register-Sound :
      (d : CrType) (m : Machine)
      → KeepsValid debugger
      → Valid m.proc
      → SoundMachine (c_jump_and_link_register debugger d m)
  unfolding c_jump_and_link_register ebreak
  c_jump_and_link_register-Sound d m keeps v =
      machine_if (d.rd_rs1 == 0) (debugger_run-Sound debugger m keeps v) (
        with_operands (some d)
          (λ d p. put lr (u32 (proc_get_pc p + 2)) p >>= λ q. c_jump_register d q) m
          (λ d.
            Sound-then (put-Sound lr (u32 (proc_get_pc m.proc + 2)) v)
              (λ q w. c_jump_register-Sound d w)))

  pub run_compressed-Sound :
      (inst : Inst) (ops : Operands) (m : Machine)
      → KeepsValid debugger
      → Valid m.proc
      → SoundMachine (run_compressed little debugger inst ops m)
  unfolding run_compressed ebreak
  run_compressed-Sound Inst.c_addi4spn ops m keeps v =
      with_operands (ciw_set ops) c_addi4_stack_pointer m (λ d. c_addi4_stack_pointer-Sound d v)
  run_compressed-Sound Inst.c_lw ops m keeps v =
      with_operands (cl_set ops) (c_load_word little) m (λ d. c_load_word-Sound little d v)
  run_compressed-Sound Inst.c_sw ops m keeps v =
      with_operands (cs_set ops) (c_store_word little) m (λ d. c_store_word-Sound little d v)
  run_compressed-Sound Inst.c_addi ops m keeps v =
      with_operands (ci_set ops) c_add_immediate m (λ d. c_add_immediate-Sound d v)
  run_compressed-Sound Inst.c_jal ops m keeps v =
      with_operands (cj_set ops) c_jump_and_link m (λ d. c_jump_and_link-Sound d v)
  run_compressed-Sound Inst.c_li ops m keeps v =
      with_operands (ci_set ops) c_load_immediate m (λ d. c_load_immediate-Sound d v)
  run_compressed-Sound Inst.c_addi16sp ops m keeps v =
      with_operands (ci_set ops) c_addi16_stack_pointer m (λ d. c_addi16_stack_pointer-Sound d v)
  run_compressed-Sound Inst.c_lui ops m keeps v =
      with_operands (ci_set ops) c_load_upper_immediate m (λ d. c_load_upper_immediate-Sound d v)
  run_compressed-Sound Inst.c_srli ops m keeps v =
      with_operands (cb_set ops) c_shift_right_logical_immediate m
        (λ d. c_shift_right_logical_immediate-Sound d v)
  run_compressed-Sound Inst.c_srai ops m keeps v =
      with_operands (cb_set ops) c_shift_right_arithmetic_immediate m
        (λ d. c_shift_right_arithmetic_immediate-Sound d v)
  run_compressed-Sound Inst.c_andi ops m keeps v =
      with_operands (cb_set ops) c_and_immediate m (λ d. c_and_immediate-Sound d v)
  run_compressed-Sound Inst.c_sub ops m keeps v =
      with_operands (ca_set ops) c_sub m (λ d. c_sub-Sound d v)
  run_compressed-Sound Inst.c_xor ops m keeps v =
      with_operands (ca_set ops) c_xor m (λ d. c_xor-Sound d v)
  run_compressed-Sound Inst.c_or ops m keeps v =
      with_operands (ca_set ops) c_or m (λ d. c_or-Sound d v)
  run_compressed-Sound Inst.c_and ops m keeps v =
      with_operands (ca_set ops) c_and m (λ d. c_and-Sound d v)
  run_compressed-Sound Inst.c_j ops m keeps v =
      with_operands (cj_set ops) c_jump m (λ d. c_jump-Sound d v)
  run_compressed-Sound Inst.c_beqz ops m keeps v =
      with_operands (cb_set ops) c_branch_on_equal_zero m (λ d. c_branch_on_equal_zero-Sound d v)
  run_compressed-Sound Inst.c_bnez ops m keeps v =
      with_operands (cb_set ops) c_branch_not_equal_zero m (λ d. c_branch_not_equal_zero-Sound d v)
  run_compressed-Sound Inst.c_slli ops m keeps v =
      with_operands (ci_set ops) c_shift_left_logical_immediate m
        (λ d. c_shift_left_logical_immediate-Sound d v)
  run_compressed-Sound Inst.c_lwsp ops m keeps v =
      with_operands (ci_set ops) (c_load_word_stack_pointer little) m
        (λ d. c_load_word_stack_pointer-Sound little d v)
  run_compressed-Sound Inst.c_jr ops m keeps v =
      with_operands (cr_set ops) c_jump_register m (λ d. c_jump_register-Sound d v)
  run_compressed-Sound Inst.c_mv ops m keeps v =
      with_operands (cr_set ops) c_move m (λ d. c_move-Sound d v)
  run_compressed-Sound Inst.c_add ops m keeps v =
      with_operands (cr_set ops) c_add m (λ d. c_add-Sound d v)
  run_compressed-Sound Inst.c_swsp ops m keeps v =
      with_operands (css_set ops) (c_store_word_stack_pointer little) m
        (λ d. c_store_word_stack_pointer-Sound little d v)
  run_compressed-Sound Inst.c_ebreak ops m keeps v = debugger_run-Sound debugger m keeps v
  run_compressed-Sound Inst.c_jalr ops m keeps v =
      machine_bind (cr_set ops) (λ d _. c_jump_and_link_register-Sound d m keeps v)
  run_compressed-Sound Inst.rv32e_bad_instruction ops m keeps v = machine_some v
  run_compressed-Sound Inst.rv32e_lui ops m keeps v = machine_some v
  run_compressed-Sound Inst.rv32e_auipc ops m keeps v = machine_some v
  run_compressed-Sound Inst.rv32e_jal ops m keeps v = machine_some v
  run_compressed-Sound Inst.rv32e_jalr ops m keeps v = machine_some v
  run_compressed-Sound Inst.rv32e_beq ops m keeps v = machine_some v
  run_compressed-Sound Inst.rv32e_bne ops m keeps v = machine_some v
  run_compressed-Sound Inst.rv32e_blt ops m keeps v = machine_some v
  run_compressed-Sound Inst.rv32e_bge ops m keeps v = machine_some v
  run_compressed-Sound Inst.rv32e_bltu ops m keeps v = machine_some v
  run_compressed-Sound Inst.rv32e_bgeu ops m keeps v = machine_some v
  run_compressed-Sound Inst.rv32e_lb ops m keeps v = machine_some v
  run_compressed-Sound Inst.rv32e_lh ops m keeps v = machine_some v
  run_compressed-Sound Inst.rv32e_lw ops m keeps v = machine_some v
  run_compressed-Sound Inst.rv32e_lbu ops m keeps v = machine_some v
  run_compressed-Sound Inst.rv32e_lhu ops m keeps v = machine_some v
  run_compressed-Sound Inst.rv32e_sb ops m keeps v = machine_some v
  run_compressed-Sound Inst.rv32e_sh ops m keeps v = machine_some v
  run_compressed-Sound Inst.rv32e_sw ops m keeps v = machine_some v
  run_compressed-Sound Inst.rv32e_addi ops m keeps v = machine_some v
  run_compressed-Sound Inst.rv32e_slti ops m keeps v = machine_some v
  run_compressed-Sound Inst.rv32e_sltiu ops m keeps v = machine_some v
  run_compressed-Sound Inst.rv32e_xori ops m keeps v = machine_some v
  run_compressed-Sound Inst.rv32e_ori ops m keeps v = machine_some v
  run_compressed-Sound Inst.rv32e_andi ops m keeps v = machine_some v
  run_compressed-Sound Inst.rv32e_slli ops m keeps v = machine_some v
  run_compressed-Sound Inst.rv32e_srli ops m keeps v = machine_some v
  run_compressed-Sound Inst.rv32e_srai ops m keeps v = machine_some v
  run_compressed-Sound Inst.rv32e_add ops m keeps v = machine_some v
  run_compressed-Sound Inst.rv32e_sub ops m keeps v = machine_some v
  run_compressed-Sound Inst.rv32e_sll ops m keeps v = machine_some v
  run_compressed-Sound Inst.rv32e_slt ops m keeps v = machine_some v
  run_compressed-Sound Inst.rv32e_sltu ops m keeps v = machine_some v
  run_compressed-Sound Inst.rv32e_xor ops m keeps v = machine_some v
  run_compressed-Sound Inst.rv32e_srl ops m keeps v = machine_some v
  run_compressed-Sound Inst.rv32e_sra ops m keeps v = machine_some v
  run_compressed-Sound Inst.rv32e_or ops m keeps v = machine_some v
  run_compressed-Sound Inst.rv32e_and ops m keeps v = machine_some v
  run_compressed-Sound Inst.rv32e_fence ops m keeps v = machine_some v
  run_compressed-Sound Inst.rv32e_ecall ops m keeps v = machine_some v
  run_compressed-Sound Inst.rv32e_ebreak ops m keeps v = machine_some v
  run_compressed-Sound Inst.c_bad_instruction ops m keeps v = machine_some v
  run_compressed-Sound Inst.c_fsd ops m keeps v = machine_some v
  run_compressed-Sound Inst.c_nop ops m keeps v = machine_some v
  run_compressed-Sound Inst.c_srli64 ops m keeps v = machine_some v
  run_compressed-Sound Inst.c_srai64 ops m keeps v = machine_some v
  run_compressed-Sound Inst.c_slli64 ops m keeps v = machine_some v
