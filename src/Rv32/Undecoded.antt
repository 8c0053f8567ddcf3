-- ===== src/Rv32/Undecoded.antt =====
-- Instructions that `decodeInstruction` of sw/ELE749_projet1-develop/src/decoder.c never gives, and
-- words that it does not decode.
use rv.Common.{
  ◌==◌, if◌then◌else◌, ℕ, ◌%◌, ◌≡◌, refl, ◌≢◌, Bool, true, false, Option, none, some, arith,
}
use rv.Rv32.Codes.{Inst, InstSet, field, rv32e_op_mem}
use rv.Rv32.Types.{decode_instruction_length}
use rv.Rv32.Decode.{
  decode_op, decode_op_imm, decode_branch, decode_load, decode_store, decode_base,
  decode_quadrant_0, decode_quadrant_1, decode_quadrant_2, decode_instruction,
}

abbrev Never : Option Inst → Type 0
Never r = (r ≢ some Inst.c_nop) × (r ≢ some Inst.c_addi16sp)

Never-base : (opcode f3 f7 os : ℕ) → Never (decode_base opcode f3 f7 os)
unfolding decode_base decode_op decode_op_imm decode_branch decode_load decode_store
Never-base opcode f3 f7 os = (ground arith, ground arith)

Never-quadrant_0 : (f3 : ℕ) → Never (decode_quadrant_0 f3)
unfolding decode_quadrant_0
Never-quadrant_0 f3 = (ground arith, ground arith)

Never-quadrant_1 :
    (f3 low bits bits' : ℕ) → low % 4 ≡ 1 → Never (decode_quadrant_1 f3 low bits bits')
unfolding decode_quadrant_1
Never-quadrant_1 f3 low bits bits' h = (ground arith, ground arith)

Never-quadrant_2 : (f3 bit12 rd rs2 : ℕ) → Never (decode_quadrant_2 f3 bit12 rd rs2)
unfolding decode_quadrant_2
Never-quadrant_2 f3 bit12 rd rs2 = (ground arith, ground arith)

Never-none : Never none
Never-none = (cc, cc)

Never-if :
    (t : Bool) {a b : Option Inst} → (t ≡ true → Never a) → Never b → Never (if t then a else b)
Never-if true h g = h refl
Never-if false h g = g

Never-by_length :
    (w : ℕ) (l : InstSet) {a b : Option Inst}
    → Never a
    → Never b
    → Never (elim l [ InstSet.rv32e ↦ a | InstSet.rvc ↦ b ])
Never-by_length w InstSet.rv32e h g = h
Never-by_length w InstSet.rvc h g = g

-- No word decodes to C.NOP, and none to C.ADDI16SP.
pub decode_instruction_never :
    (w : ℕ)
    → (decode_instruction w ≢ some Inst.c_nop) × (decode_instruction w ≢ some Inst.c_addi16sp)
unfolding decode_instruction
decode_instruction_never w =
    Never-by_length w (decode_instruction_length w)
      (Never-base (field 0 7 w) (field 12 3 w) (field 25 6 w) (field 20 1 w))
      (Never-if (field 0 2 w == 0) (λ _. Never-quadrant_0 (field 13 3 w))
        (Never-if (field 0 2 w == 1)
          (λ is_one.
            Never-quadrant_1 (field 13 3 w) (field 0 5 w) (field 10 2 w) (field 5 2 w)
              (ground arith))
          (Never-if (field 0 2 w == 2)
            (λ _. Never-quadrant_2 (field 13 3 w) (field 12 1 w) (field 7 5 w) (field 2 5 w))
            Never-none)))

pub decode_instruction_fence : (w : ℕ) → field 0 7 w ≡ rv32e_op_mem → decode_instruction w ≡ none
unfolding decode_instruction decode_instruction_length decode_base
decode_instruction_fence w h = ground arith
