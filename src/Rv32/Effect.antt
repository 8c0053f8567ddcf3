-- ===== src/Rv32/Effect.antt =====
-- What `runInstruction` of sw/ELE749_projet1-develop/src/decoder.c does with every arithmetic
-- instruction, in terms of the arithmetic unit of the out-of-order simulator.
use rv.Common.{◌>>=◌, ℕ, ◌^◌, ◌<◌, ◌≡◌, refl, ◌∙◌, Bool, false, Option, none, arith}
use rv.Proc.{ProcState}
use rv.Alu.{
  f10_add, f10_sll, f10_slt, f10_xor, f10_srl, f10_or, f10_and, f10_sub, f10_sra, alu_exec,
}
use rv.Rv32.Codes.{Inst, field, rv32e_op, rv32e_op_imm}
use rv.Rv32.Immediate.{is_srai}
use rv.Rv32.Data.{RType, IType}
use rv.Rv32.Base.{
  shift_left, shift_left_immediate, shift_right, shift_right_immediate, shift_right_arithmetic, add,
  add_immediate, sub, xor, xor_immediate, or, or_immediate, and, and_immediate, set_less_than,
  set_less_than_immediate, set_less_than_unsigned, set_less_than_immediate_unsigned,
}
use rv.Rv32.Machine.{Machine, Debugger, on_proc}
use rv.Rv32.Execute.{run_op, run_op_imm, run_instruction}
use rv.Rv32.Unit.{of_registers, of_immediate}
use rv.Rv32.Encoding.{Encodes, decode_instruction-Encodes}
use rv.Rv32.Run.{registers_of, immediate_of, run_instruction-registers, run_instruction-immediate}

-- ADD and SUB go on to the case of SLL, SRL and SRA to that of OR.
abbrev pub register_effect : Inst → RType → ProcState → Option ProcState
register_effect Inst.rv32e_add d p = of_registers f10_add d p >>= λ q. of_registers f10_sll d q
register_effect Inst.rv32e_sub d p = of_registers f10_sub d p >>= λ q. of_registers f10_sll d q
register_effect Inst.rv32e_sll d p = of_registers f10_sll d p
register_effect Inst.rv32e_slt d p = of_registers f10_slt d p
register_effect Inst.rv32e_sltu d p = set_less_than_unsigned d p
register_effect Inst.rv32e_xor d p = of_registers f10_xor d p
register_effect Inst.rv32e_srl d p = of_registers f10_srl d p >>= λ q. of_registers f10_or d q
register_effect Inst.rv32e_sra d p = of_registers f10_sra d p >>= λ q. of_registers f10_or d q
register_effect Inst.rv32e_or d p = of_registers f10_or d p
register_effect Inst.rv32e_and d p = of_registers f10_and d p
register_effect _ d p = none

abbrev pub immediate_effect : Inst → IType → ProcState → Option ProcState
immediate_effect Inst.rv32e_addi d p = of_immediate f10_add d p
immediate_effect Inst.rv32e_slti d p = of_immediate f10_slt d p
immediate_effect Inst.rv32e_sltiu d p = set_less_than_immediate_unsigned d p
immediate_effect Inst.rv32e_xori d p = of_immediate f10_xor d p
immediate_effect Inst.rv32e_ori d p = of_immediate f10_or d p
immediate_effect Inst.rv32e_andi d p = of_immediate f10_and d p
immediate_effect Inst.rv32e_slli d p = of_immediate f10_sll d p
immediate_effect Inst.rv32e_srli d p = of_immediate f10_srl d p
immediate_effect _ d p = none

module _ (little : Bool) (debugger : Debugger) (w : ℕ) (m : Machine) where
  -- `runInstruction` on the word of a register instruction does what the arithmetic unit of the
  -- out-of-order simulator gives for its operands, with SLTU by magnitudes; but ADD and SUB are
  -- followed by SLL, and SRL and SRA by OR, on the same registers.
  pub run_instruction-register_effect :
      {inst : Inst}
      → Encodes w inst
      → field 0 7 w ≡ rv32e_op
      → run_instruction little debugger w m ≡ on_proc (register_effect inst (registers_of w)) m
  unfolding run_op alu_exec add sub shift_left shift_right shift_right_arithmetic set_less_than xor
      or and
  run_instruction-register_effect e op =
      run_instruction-registers little debugger w m (decode_instruction-Encodes w e) op ∙ effect e
    where
      effect :
          {inst : Inst}
          → Encodes w inst
          → on_proc (run_op (field 12 3 w) (field 25 6 w) (registers_of w)) m
            ≡ on_proc (register_effect inst (registers_of w)) m
      effect (Encodes.lui_word a) = absurd (omega arith)
      effect (Encodes.auipc_word a) = absurd (omega arith)
      effect (Encodes.jal_word a) = absurd (omega arith)
      effect (Encodes.jalr_word a b) = absurd (omega arith)
      effect (Encodes.beq_word a b) = absurd (omega arith)
      effect (Encodes.bne_word a b) = absurd (omega arith)
      effect (Encodes.blt_word a b) = absurd (omega arith)
      effect (Encodes.bge_word a b) = absurd (omega arith)
      effect (Encodes.bltu_word a b) = absurd (omega arith)
      effect (Encodes.bgeu_word a b) = absurd (omega arith)
      effect (Encodes.lb_word a b) = absurd (omega arith)
      effect (Encodes.lh_word a b) = absurd (omega arith)
      effect (Encodes.lw_word a b) = absurd (omega arith)
      effect (Encodes.lbu_word a b) = absurd (omega arith)
      effect (Encodes.lhu_word a b) = absurd (omega arith)
      effect (Encodes.sb_word a b) = absurd (omega arith)
      effect (Encodes.sh_word a b) = absurd (omega arith)
      effect (Encodes.sw_word a b) = absurd (omega arith)
      effect (Encodes.addi_word a b) = absurd (omega arith)
      effect (Encodes.slti_word a b) = absurd (omega arith)
      effect (Encodes.sltiu_word a b) = absurd (omega arith)
      effect (Encodes.xori_word a b) = absurd (omega arith)
      effect (Encodes.ori_word a b) = absurd (omega arith)
      effect (Encodes.andi_word a b) = absurd (omega arith)
      effect (Encodes.ecall_word a b) = absurd (omega arith)
      effect (Encodes.ebreak_word a b) = absurd (omega arith)
      effect (Encodes.slli_word a b c) = absurd (omega arith)
      effect (Encodes.srli_word a b c) = absurd (omega arith)
      effect (Encodes.srai_word a b c) = absurd (omega arith)
      effect (Encodes.add_word a b c) =
          (let six : field 25 6 w ≡ 0 = omega arith in rw (b, six) refl)
      effect (Encodes.sub_word a b c) =
          (let six : field 25 6 w ≡ 32 = omega arith in rw (b, six) refl)
      effect (Encodes.sll_word a b c) = rw b refl
      effect (Encodes.slt_word a b c) = rw b refl
      effect (Encodes.sltu_word a b c) = rw b refl
      effect (Encodes.xor_word a b c) = rw b refl
      effect (Encodes.srl_word a b c) =
          (let six : field 25 6 w ≡ 0 = omega arith in rw (b, six) refl)
      effect (Encodes.sra_word a b c) =
          (let six : field 25 6 w ≡ 32 = omega arith in rw (b, six) refl)
      effect (Encodes.or_word a b c) = rw b refl
      effect (Encodes.and_word a b c) = rw b refl

  -- `runInstruction` on the word of an instruction with an immediate, not SRAI, does what the
  -- arithmetic unit of the out-of-order simulator gives for the register and the sign-extended
  -- immediate, with SLTIU by magnitudes.
  pub run_instruction-immediate_effect :
      {inst : Inst}
      → Encodes w inst
      → w < 2 ^ 32
      → field 0 7 w ≡ rv32e_op_imm
      → is_srai inst ≡ false
      → run_instruction little debugger w m ≡ on_proc (immediate_effect inst (immediate_of w)) m
  unfolding run_op_imm alu_exec add_immediate shift_left_immediate shift_right_immediate
      set_less_than_immediate xor_immediate or_immediate and_immediate
  run_instruction-immediate_effect e h op n =
      run_instruction-immediate little debugger w m h (decode_instruction-Encodes w e) n op
      ∙ effect e n
    where
      effect :
          {inst : Inst}
          → Encodes w inst
          → is_srai inst ≡ false
          → on_proc (run_op_imm (field 12 3 w) (field 25 6 w) (immediate_of w)) m
            ≡ on_proc (immediate_effect inst (immediate_of w)) m
      effect (Encodes.lui_word a) n = absurd (omega arith)
      effect (Encodes.auipc_word a) n = absurd (omega arith)
      effect (Encodes.jal_word a) n = absurd (omega arith)
      effect (Encodes.jalr_word a b) n = absurd (omega arith)
      effect (Encodes.beq_word a b) n = absurd (omega arith)
      effect (Encodes.bne_word a b) n = absurd (omega arith)
      effect (Encodes.blt_word a b) n = absurd (omega arith)
      effect (Encodes.bge_word a b) n = absurd (omega arith)
      effect (Encodes.bltu_word a b) n = absurd (omega arith)
      effect (Encodes.bgeu_word a b) n = absurd (omega arith)
      effect (Encodes.lb_word a b) n = absurd (omega arith)
      effect (Encodes.lh_word a b) n = absurd (omega arith)
      effect (Encodes.lw_word a b) n = absurd (omega arith)
      effect (Encodes.lbu_word a b) n = absurd (omega arith)
      effect (Encodes.lhu_word a b) n = absurd (omega arith)
      effect (Encodes.sb_word a b) n = absurd (omega arith)
      effect (Encodes.sh_word a b) n = absurd (omega arith)
      effect (Encodes.sw_word a b) n = absurd (omega arith)
      effect (Encodes.addi_word a b) n = rw b refl
      effect (Encodes.slti_word a b) n = rw b refl
      effect (Encodes.sltiu_word a b) n = rw b refl
      effect (Encodes.xori_word a b) n = rw b refl
      effect (Encodes.ori_word a b) n = rw b refl
      effect (Encodes.andi_word a b) n = rw b refl
      effect (Encodes.ecall_word a b) n = absurd (omega arith)
      effect (Encodes.ebreak_word a b) n = absurd (omega arith)
      effect (Encodes.slli_word a b c) n = rw b refl
      effect (Encodes.srli_word a b c) n =
          (let six : field 25 6 w ≡ 0 = omega arith in rw (b, six) refl)
      effect (Encodes.srai_word a b c) n = cc
      effect (Encodes.add_word a b c) n = absurd (omega arith)
      effect (Encodes.sub_word a b c) n = absurd (omega arith)
      effect (Encodes.sll_word a b c) n = absurd (omega arith)
      effect (Encodes.slt_word a b c) n = absurd (omega arith)
      effect (Encodes.sltu_word a b c) n = absurd (omega arith)
      effect (Encodes.xor_word a b c) n = absurd (omega arith)
      effect (Encodes.srl_word a b c) n = absurd (omega arith)
      effect (Encodes.sra_word a b c) n = absurd (omega arith)
      effect (Encodes.or_word a b c) n = absurd (omega arith)
      effect (Encodes.and_word a b c) n = absurd (omega arith)
