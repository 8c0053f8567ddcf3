-- ===== src/Rv32/Run.antt =====
-- What `runInstruction` of sw/ELE749_projet1-develop/src/decoder.c does with the words of the
-- arithmetic instructions.
use rv.Common.{length, set, ℕ, ◌^◌, ◌<◌, ◌≡◌, refl, ◌∙◌, Bool, false, some, arith}
use rv.Rv32.Codes.{Inst, InstSet, field, rv32e_op, rv32e_op_imm}
use rv.Rv32.Types.{decode_instruction_length, base_type, decode_instruction_type}
use rv.Rv32.Decode.{decode_instruction}
use rv.Rv32.Immediate.{is_srai}
use rv.Rv32.Data.{RType, IType}
use rv.Rv32.Machine.{Machine, Debugger, on_proc}
use rv.Rv32.Operands.{Operands, rs1_field, rs2_field, rd_field, base_operands}
use rv.Rv32.Execute.{run_op, run_op_imm, run_base, run_instruction}
use rv.Rv32.Scatter.{sext, get_i_type_immediate_lem}

abbrev pub registers_of : ℕ → RType
registers_of w = record { rs2 = rs2_field w; rs1 = rs1_field w; rd = rd_field w }

abbrev pub immediate_of : ℕ → IType
immediate_of w = record { imm = sext 12 (field 20 12 w); rs1 = rs1_field w; rd = rd_field w }

pub long_word :
    (w : ℕ)
    → field 0 2 w ≡ 3
    → (decode_instruction_length w ≡ InstSet.rv32e)
      × (decode_instruction_type w ≡ some (base_type (field 0 7 w)))
unfolding decode_instruction_type decode_instruction_length
long_word w h = (ground arith, ground arith)

module _ (little : Bool) (debugger : Debugger) (w : ℕ) (m : Machine) where
  pub run_instruction-long :
      {inst : Inst} (ops : Operands)
      → field 0 2 w ≡ 3
      → decode_instruction w ≡ some inst
      → base_operands (base_type (field 0 7 w)) w ≡ some ops
      → run_instruction little debugger w m ≡ run_base little debugger w ops m
  unfolding run_instruction
  run_instruction-long {inst} ops long d set =
      let (length, type) = long_word w long in rw (type, d, length, set) refl

  pub run_instruction-registers :
      {inst : Inst}
      → decode_instruction w ≡ some inst
      → field 0 7 w ≡ rv32e_op
      → run_instruction little debugger w m
        ≡ on_proc (run_op (field 12 3 w) (field 25 6 w) (registers_of w)) m
  unfolding run_base base_operands base_type
  run_instruction-registers d op =
      run_instruction-long (Operands.r_data (registers_of w)) (omega arith) d (rw op refl)
      ∙ rw op refl

  pub run_instruction-immediate :
      {inst : Inst}
      → w < 2 ^ 32
      → decode_instruction w ≡ some inst
      → is_srai inst ≡ false
      → field 0 7 w ≡ rv32e_op_imm
      → run_instruction little debugger w m
        ≡ on_proc (run_op_imm (field 12 3 w) (field 25 6 w) (immediate_of w)) m
  unfolding run_base base_operands base_type
  run_instruction-immediate h d n op =
      run_instruction-long (Operands.i_data (immediate_of w)) (omega arith) d
        (rw (op, get_i_type_immediate_lem w h d n) refl)
      ∙ rw op refl
