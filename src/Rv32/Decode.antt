-- ===== src/Rv32/Decode.antt =====
-- The decoder, sw/ELE749_projet1-develop/src/decoder.c. A result `none` is a call that reaches the
-- end of its function without a `return`.
use rv.Common.{◌==◌, if◌then◌else◌, ℕ, Option, none, some}
use rv.Rv32.Codes.{
  Inst, InstSet, field, rv32e_op, rv32e_op_imm, rv32e_op_branch, rv32e_op_lui, rv32e_op_auipc,
  rv32e_op_jal, rv32e_op_jalr, rv32e_op_load, rv32e_op_store, rv32e_op_mem, rv32e_op_os,
}
use rv.Rv32.Types.{decode_instruction_length}

-- The inner `switch` of RV32E_OP: a `funct7` of ADD and SUB that is unknown falls through to SLL,
-- and one of SRL and SRA to OR.
unfoldable pub decode_op : ℕ → ℕ → Inst
decode_op f3 f7 =
    if f3 == 0b000
    then (if f7 == 0x00
        then Inst.rv32e_add
        else if f7 == 0x20
        then Inst.rv32e_sub
        else Inst.rv32e_sll)
    else if f3 == 0b001
    then Inst.rv32e_sll
    else if f3 == 0b010
    then Inst.rv32e_slt
    else if f3 == 0b011
    then Inst.rv32e_sltu
    else if f3 == 0b100
    then Inst.rv32e_xor
    else if f3 == 0b101
    then (if f7 == 0x00
        then Inst.rv32e_srl
        else if f7 == 0x20
        then Inst.rv32e_sra
        else Inst.rv32e_or)
    else if f3 == 0b110
    then Inst.rv32e_or
    else if f3 == 0b111
    then Inst.rv32e_and
    else Inst.rv32e_bad_instruction

unfoldable pub decode_op_imm : ℕ → ℕ → Inst
decode_op_imm f3 f7 =
    if f3 == 0b000
    then Inst.rv32e_addi
    else if f3 == 0b001
    then Inst.rv32e_slli
    else if f3 == 0b010
    then Inst.rv32e_slti
    else if f3 == 0b011
    then Inst.rv32e_sltiu
    else if f3 == 0b100
    then Inst.rv32e_xori
    else if f3 == 0b101
    then (if f7 == 0x00
        then Inst.rv32e_srli
        else if f7 == 0x20
        then Inst.rv32e_srai
        else Inst.rv32e_ori)
    else if f3 == 0b110
    then Inst.rv32e_ori
    else if f3 == 0b111
    then Inst.rv32e_andi
    else Inst.rv32e_bad_instruction

unfoldable pub decode_branch : ℕ → Inst
decode_branch f3 =
    if f3 == 0b000
    then Inst.rv32e_beq
    else if f3 == 0b001
    then Inst.rv32e_bne
    else if f3 == 0b100
    then Inst.rv32e_blt
    else if f3 == 0b101
    then Inst.rv32e_bge
    else if f3 == 0b110
    then Inst.rv32e_bltu
    else if f3 == 0b111
    then Inst.rv32e_bgeu
    else Inst.rv32e_bad_instruction

unfoldable pub decode_load : ℕ → Inst
decode_load f3 =
    if f3 == 0b000
    then Inst.rv32e_lb
    else if f3 == 0b001
    then Inst.rv32e_lh
    else if f3 == 0b010
    then Inst.rv32e_lw
    else if f3 == 0b100
    then Inst.rv32e_lbu
    else if f3 == 0b101
    then Inst.rv32e_lhu
    else Inst.rv32e_bad_instruction

unfoldable pub decode_store : ℕ → Inst
decode_store f3 =
    if f3 == 0b000
    then Inst.rv32e_sb
    else if f3 == 0b001
    then Inst.rv32e_sh
    else if f3 == 0b010
    then Inst.rv32e_sw
    else Inst.rv32e_bad_instruction

-- The case RV32E. RV32E_OP_MEM leaves the `switch` and goes on with the cases of RVC, none of which
-- fits.
unfoldable pub decode_base : ℕ → ℕ → ℕ → ℕ → Option Inst
decode_base opcode f3 f7 os =
    if opcode == rv32e_op
    then some (decode_op f3 f7)
    else if opcode == rv32e_op_imm
    then some (decode_op_imm f3 f7)
    else if opcode == rv32e_op_branch
    then some (decode_branch f3)
    else if opcode == rv32e_op_lui
    then some Inst.rv32e_lui
    else if opcode == rv32e_op_auipc
    then some Inst.rv32e_auipc
    else if opcode == rv32e_op_jal
    then some Inst.rv32e_jal
    else if opcode == rv32e_op_jalr
    then some Inst.rv32e_jalr
    else if opcode == rv32e_op_load
    then some (decode_load f3)
    else if opcode == rv32e_op_store
    then some (decode_store f3)
    else if opcode == rv32e_op_mem
    then none
    else if opcode == rv32e_op_os
    then some (if os == 1 then Inst.rv32e_ebreak else Inst.rv32e_ecall)
    else some Inst.rv32e_bad_instruction

unfoldable pub decode_quadrant_0 : ℕ → Option Inst
decode_quadrant_0 f3 =
    if f3 == 0b000
    then some Inst.c_addi4spn
    else if f3 == 0b010
    then some Inst.c_lw
    else if f3 == 0b100
    then some Inst.c_bad_instruction
    else if f3 == 0b101
    then some Inst.c_fsd
    else if f3 == 0b110
    then some Inst.c_sw
    else none

-- `low` is `instruction & (0b11111 << 7) >> 7`: the shifts come first, so it is bits 4 to 0.
unfoldable pub decode_quadrant_1 : ℕ → ℕ → ℕ → ℕ → Option Inst
decode_quadrant_1 f3 low bits bits' =
    if f3 == 0b000
    then some (if low == 0 then Inst.c_nop else Inst.c_addi)
    else if f3 == 0b001
    then some Inst.c_jal
    else if f3 == 0b010
    then some Inst.c_li
    else if f3 == 0b011
    then some (if low == 2 then Inst.c_addi16sp else Inst.c_lui)
    else if f3 == 0b100
    then some (
        if bits == 0b00
        then Inst.c_srli
        else if bits == 0b01
        then Inst.c_srai
        else if bits == 0b10
        then Inst.c_andi
        else if bits' == 0b00
        then Inst.c_sub
        else if bits' == 0b01
        then Inst.c_xor
        else if bits' == 0b10
        then Inst.c_or
        else Inst.c_and)
    else if f3 == 0b101
    then some Inst.c_j
    else if f3 == 0b110
    then some Inst.c_beqz
    else if f3 == 0b111
    then some Inst.c_bnez
    else none

unfoldable pub decode_quadrant_2 : ℕ → ℕ → ℕ → ℕ → Option Inst
decode_quadrant_2 f3 bit12 rd rs2 =
    if f3 == 0b000
    then some Inst.c_slli
    else if f3 == 0b010
    then some Inst.c_lwsp
    else if f3 == 0b100
    then some (
        if bit12 == 0
        then (if rs2 == 0 then Inst.c_jr else Inst.c_mv)
        else if rd == 0
        then Inst.c_ebreak
        else if rs2 == 0
        then Inst.c_jalr
        else Inst.c_add)
    else if f3 == 0b110
    then some Inst.c_swsp
    else none

unfoldable pub decode_instruction : ℕ → Option Inst
decode_instruction w = elim (decode_instruction_length w) [
  | InstSet.rv32e ↦ decode_base (field 0 7 w) (field 12 3 w) (field 25 6 w) (field 20 1 w)
  | InstSet.rvc ↦
      if field 0 2 w == 0
      then decode_quadrant_0 (field 13 3 w)
      else if field 0 2 w == 1
      then decode_quadrant_1 (field 13 3 w) (field 0 5 w) (field 10 2 w) (field 5 2 w)
      else if field 0 2 w == 2
      then decode_quadrant_2 (field 13 3 w) (field 12 1 w) (field 7 5 w) (field 2 5 w)
      else none
]
