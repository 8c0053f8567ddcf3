-- ===== src/Rv32/Shape.antt =====
-- How an instruction reaches the debugger, for `runInstruction` of
-- sw/ELE749_projet1-develop/src/decoder.c: it runs on the processor alone, or it is one session,
-- or it is ECALL.
use rv.Common.{◌==◌, if◌then◌else◌, ◌>>=◌, ℕ, ◌≡◌, refl, Bool, true, false, Option, none, some}
use rv.Proc.{ProcState}
use rv.Int.{ℤ}
use rv.Rv32.Codes.{
  Inst, InstSet, field, rv32e_op, rv32e_op_imm, rv32e_op_branch, rv32e_op_lui, rv32e_op_auipc,
  rv32e_op_jal, rv32e_op_jalr, rv32e_op_load, rv32e_op_store, rv32e_op_os,
}
use rv.Rv32.Types.{decode_instruction_length, decode_instruction_type}
use rv.Rv32.Decode.{decode_instruction}
use rv.Rv32.Data.{CrType}
use rv.Rv32.Machine.{Machine, Debugger, simulator_set_state, ecall, debugger_run, ebreak, on_proc}
use rv.Rv32.Base.{load_upper_imm, add_upper_imm_to_pc}
use rv.Rv32.Transfer.{jump_and_link, jump_and_link_register}
use rv.Rv32.Compressed.{
  c_jump, c_jump_and_link, c_jump_register, c_jump_and_link_register, c_branch_on_equal_zero,
  c_branch_not_equal_zero, c_load_immediate, c_load_upper_immediate, c_add_immediate,
  c_addi16_stack_pointer, c_addi4_stack_pointer, c_shift_left_logical_immediate,
  c_shift_right_logical_immediate, c_shift_right_arithmetic_immediate, c_and_immediate, c_move,
  c_add, c_and, c_or, c_xor, c_sub, c_load_word, c_store_word, c_load_word_stack_pointer,
  c_store_word_stack_pointer,
}
use rv.Rv32.Operands.{
  Operands, base_operands, compressed_operands, r_set, i_set, s_set, b_set, u_set, j_set, cr_set,
  ci_set, css_set, ciw_set, cl_set, cs_set, ca_set, cb_set, cj_set,
}
use rv.Rv32.Execute.{
  run_op, run_op_imm, run_branch, run_load, run_store, run_base, run_compressed, run_instruction,
}

-- What a step on `m` does with the debugger that it is given.
pub data Shape (m : Machine) (f : Debugger → Option Machine) : Type 0 where
  of_processor :
      (r : Option ProcState)
      → ((debugger : Debugger) → f debugger ≡ (r >>= λ p. some (record m { proc = p })))
      → Shape m f
  of_session : ((debugger : Debugger) → f debugger ≡ debugger_run debugger m) → Shape m f
  of_ecall : ((debugger : Debugger) → f debugger ≡ some (ecall m)) → Shape m f

Shape-if :
    (t : Bool) {m : Machine} {f g : Debugger → Option Machine}
    → Shape m f
    → Shape m g
    → Shape m (λ debugger. if t then f debugger else g debugger)
Shape-if true a b = a
Shape-if false a b = b

Shape-operands :
    {D : Type 0} (r : Option D) (f : D → ProcState → Option ProcState) (m : Machine)
    → Shape m (λ debugger. r >>= λ d. on_proc (f d) m)
Shape-operands none f m = Shape.of_processor none (λ debugger. refl)
Shape-operands (some d) f m = Shape.of_processor (f d m.proc) (λ debugger. refl)

Shape-bind :
    {A : Type 0} (r : Option A) {f : A → Debugger → Option Machine} {m : Machine}
    → ((a : A) → Shape m (f a))
    → Shape m (λ debugger. r >>= λ a. f a debugger)
Shape-bind none h = Shape.of_processor none (λ debugger. refl)
Shape-bind (some a) h = h a

Shape-stays : (m : Machine) → Shape m (λ debugger. some m)
Shape-stays m = Shape.of_processor (some m.proc) (λ debugger. refl)

c_jump_and_link_register-Shape :
    (d : CrType) (m : Machine) → Shape m (λ debugger. c_jump_and_link_register debugger d m)
unfolding c_jump_and_link_register ebreak
c_jump_and_link_register-Shape d m =
    Shape-if (d.rd_rs1 == 0) (Shape.of_session (λ debugger. refl))
      (Shape.of_processor _ (λ debugger. refl))

module _ (little : Bool) where
  run_base-Shape :
      (w : ℕ) (ops : Operands) (m : Machine)
      → Shape m (λ debugger. run_base little debugger w ops m)
  unfolding run_base ebreak ecall simulator_set_state
  run_base-Shape w ops m =
      let f3 = field 12 3 w in
      let f7 = field 25 6 w in
      let opcode = field 0 7 w in
      Shape-if (opcode == rv32e_op) (Shape-operands (r_set ops) (run_op f3 f7) m) (
        Shape-if (opcode == rv32e_op_imm) (Shape-operands (i_set ops) (run_op_imm f3 f7) m) (
          Shape-if (opcode == rv32e_op_branch) (Shape-operands (b_set ops) (run_branch f3) m) (
            Shape-if (opcode == rv32e_op_lui) (Shape-operands (u_set ops) load_upper_imm m) (
              Shape-if (opcode == rv32e_op_auipc) (Shape-operands (u_set ops) add_upper_imm_to_pc m)
                (Shape-if (opcode == rv32e_op_jal) (Shape-operands (j_set ops) jump_and_link m) (
                  Shape-if (opcode == rv32e_op_jalr)
                    (Shape-operands (i_set ops) jump_and_link_register m)
                    (Shape-if (opcode == rv32e_op_load)
                      (Shape-operands (i_set ops) (run_load little f3) m)
                      (Shape-if (opcode == rv32e_op_store)
                        (Shape-operands (s_set ops) (run_store little f3) m)
                        (Shape-if (opcode == rv32e_op_os)
                          (Shape-if (field 20 1 w == 1) (Shape.of_session (λ debugger. refl))
                            (Shape.of_ecall (λ debugger. refl)))
                          (Shape-stays m))))))))))

  run_compressed-Shape :
      (inst : Inst) (ops : Operands) (m : Machine)
      → Shape m (λ debugger. run_compressed little debugger inst ops m)
  unfolding run_compressed ebreak
  run_compressed-Shape Inst.c_addi4spn ops m = Shape-operands (ciw_set ops) c_addi4_stack_pointer m
  run_compressed-Shape Inst.c_lw ops m = Shape-operands (cl_set ops) (c_load_word little) m
  run_compressed-Shape Inst.c_sw ops m = Shape-operands (cs_set ops) (c_store_word little) m
  run_compressed-Shape Inst.c_addi ops m = Shape-operands (ci_set ops) c_add_immediate m
  run_compressed-Shape Inst.c_jal ops m = Shape-operands (cj_set ops) c_jump_and_link m
  run_compressed-Shape Inst.c_li ops m = Shape-operands (ci_set ops) c_load_immediate m
  run_compressed-Shape Inst.c_addi16sp ops m = Shape-operands (ci_set ops) c_addi16_stack_pointer m
  run_compressed-Shape Inst.c_lui ops m = Shape-operands (ci_set ops) c_load_upper_immediate m
  run_compressed-Shape Inst.c_srli ops m =
      Shape-operands (cb_set ops) c_shift_right_logical_immediate m
  run_compressed-Shape Inst.c_srai ops m =
      Shape-operands (cb_set ops) c_shift_right_arithmetic_immediate m
  run_compressed-Shape Inst.c_andi ops m = Shape-operands (cb_set ops) c_and_immediate m
  run_compressed-Shape Inst.c_sub ops m = Shape-operands (ca_set ops) c_sub m
  run_compressed-Shape Inst.c_xor ops m = Shape-operands (ca_set ops) c_xor m
  run_compressed-Shape Inst.c_or ops m = Shape-operands (ca_set ops) c_or m
  run_compressed-Shape Inst.c_and ops m = Shape-operands (ca_set ops) c_and m
  run_compressed-Shape Inst.c_j ops m = Shape-operands (cj_set ops) c_jump m
  run_compressed-Shape Inst.c_beqz ops m = Shape-operands (cb_set ops) c_branch_on_equal_zero m
  run_compressed-Shape Inst.c_bnez ops m = Shape-operands (cb_set ops) c_branch_not_equal_zero m
  run_compressed-Shape Inst.c_slli ops m =
      Shape-operands (ci_set ops) c_shift_left_logical_immediate m
  run_compressed-Shape Inst.c_lwsp ops m =
      Shape-operands (ci_set ops) (c_load_word_stack_pointer little) m
  run_compressed-Shape Inst.c_jr ops m = Shape-operands (cr_set ops) c_jump_register m
  run_compressed-Shape Inst.c_mv ops m = Shape-operands (cr_set ops) c_move m
  run_compressed-Shape Inst.c_add ops m = Shape-operands (cr_set ops) c_add m
  run_compressed-Shape Inst.c_swsp ops m =
      Shape-operands (css_set ops) (c_store_word_stack_pointer little) m
  run_compressed-Shape Inst.c_ebreak ops m = Shape.of_session (λ debugger. refl)
  run_compressed-Shape Inst.c_jalr ops m =
      Shape-bind (cr_set ops) (λ d. c_jump_and_link_register-Shape d m)
  run_compressed-Shape Inst.rv32e_bad_instruction ops m = Shape-stays m
  run_compressed-Shape Inst.rv32e_lui ops m = Shape-stays m
  run_compressed-Shape Inst.rv32e_auipc ops m = Shape-stays m
  run_compressed-Shape Inst.rv32e_jal ops m = Shape-stays m
  run_compressed-Shape Inst.rv32e_jalr ops m = Shape-stays m
  run_compressed-Shape Inst.rv32e_beq ops m = Shape-stays m
  run_compressed-Shape Inst.rv32e_bne ops m = Shape-stays m
  run_compressed-Shape Inst.rv32e_blt ops m = Shape-stays m
  run_compressed-Shape Inst.rv32e_bge ops m = Shape-stays m
  run_compressed-Shape Inst.rv32e_bltu ops m = Shape-stays m
  run_compressed-Shape Inst.rv32e_bgeu ops m = Shape-stays m
  run_compressed-Shape Inst.rv32e_lb ops m = Shape-stays m
  run_compressed-Shape Inst.rv32e_lh ops m = Shape-stays m
  run_compressed-Shape Inst.rv32e_lw ops m = Shape-stays m
  run_compressed-Shape Inst.rv32e_lbu ops m = Shape-stays m
  run_compressed-Shape Inst.rv32e_lhu ops m = Shape-stays m
  run_compressed-Shape Inst.rv32e_sb ops m = Shape-stays m
  run_compressed-Shape Inst.rv32e_sh ops m = Shape-stays m
  run_compressed-Shape Inst.rv32e_sw ops m = Shape-stays m
  run_compressed-Shape Inst.rv32e_addi ops m = Shape-stays m
  run_compressed-Shape Inst.rv32e_slti ops m = Shape-stays m
  run_compressed-Shape Inst.rv32e_sltiu ops m = Shape-stays m
  run_compressed-Shape Inst.rv32e_xori ops m = Shape-stays m
  run_compressed-Shape Inst.rv32e_ori ops m = Shape-stays m
  run_compressed-Shape Inst.rv32e_andi ops m = Shape-stays m
  run_compressed-Shape Inst.rv32e_slli ops m = Shape-stays m
  run_compressed-Shape Inst.rv32e_srli ops m = Shape-stays m
  run_compressed-Shape Inst.rv32e_srai ops m = Shape-stays m
  run_compressed-Shape Inst.rv32e_add ops m = Shape-stays m
  run_compressed-Shape Inst.rv32e_sub ops m = Shape-stays m
  run_compressed-Shape Inst.rv32e_sll ops m = Shape-stays m
  run_compressed-Shape Inst.rv32e_slt ops m = Shape-stays m
  run_compressed-Shape Inst.rv32e_sltu ops m = Shape-stays m
  run_compressed-Shape Inst.rv32e_xor ops m = Shape-stays m
  run_compressed-Shape Inst.rv32e_srl ops m = Shape-stays m
  run_compressed-Shape Inst.rv32e_sra ops m = Shape-stays m
  run_compressed-Shape Inst.rv32e_or ops m = Shape-stays m
  run_compressed-Shape Inst.rv32e_and ops m = Shape-stays m
  run_compressed-Shape Inst.rv32e_fence ops m = Shape-stays m
  run_compressed-Shape Inst.rv32e_ecall ops m = Shape-stays m
  run_compressed-Shape Inst.rv32e_ebreak ops m = Shape-stays m
  run_compressed-Shape Inst.c_bad_instruction ops m = Shape-stays m
  run_compressed-Shape Inst.c_fsd ops m = Shape-stays m
  run_compressed-Shape Inst.c_nop ops m = Shape-stays m
  run_compressed-Shape Inst.c_srli64 ops m = Shape-stays m
  run_compressed-Shape Inst.c_srai64 ops m = Shape-stays m
  run_compressed-Shape Inst.c_slli64 ops m = Shape-stays m

  pub run_instruction-Shape :
      (w : ℕ) (m : Machine) → Shape m (λ debugger. run_instruction little debugger w m)
  unfolding run_instruction
  run_instruction-Shape w m = Shape-bind (decode_instruction_type w) (λ type.
      Shape-bind (decode_instruction w) (λ inst. by_length type inst (decode_instruction_length w)))
    where
      by_length :
          (type : ℤ) (inst : Inst) (l : InstSet)
          → Shape m (λ debugger. elim l [
            | InstSet.rv32e ↦ do ops ← base_operands type w; run_base little debugger w ops m
            | InstSet.rvc ↦ do
              ops ← compressed_operands type w
              run_compressed little debugger inst ops m
          ])
      by_length type inst InstSet.rv32e =
          Shape-bind (base_operands type w) (λ ops. run_base-Shape w ops m)
      by_length type inst InstSet.rvc =
          Shape-bind (compressed_operands type w) (λ ops. run_compressed-Shape inst ops m)
