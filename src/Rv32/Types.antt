-- ===== src/Rv32/Types.antt =====
-- `decodeInstructionLength` and `decodeInstructionType` of sw/ELE749_projet1-develop/src/decoder.c.
-- A result `none` is a call that reaches the end of its function without a `return`.
use rv.Int.{ℤ}
use rv.Common.{◌==◌, if◌then◌else◌, ℕ, Option, none, some}
use rv.Rv32.Codes.{
  InstSet, rv32e_bad_type, rv32e_r_type, rv32e_i_type, rv32e_s_type, rv32e_b_type, rv32e_u_type,
  rv32e_j_type, rv32e_misc_type, rv32c_bad_type, rv32c_cr_type, rv32c_ci_type, rv32c_css_type,
  rv32c_ciw_type, rv32c_cl_type, rv32c_cs_type, rv32c_ca_type, rv32c_cb_type, rv32c_cj_type, field,
  rv32e_op, rv32e_op_imm, rv32e_op_branch, rv32e_op_lui, rv32e_op_auipc, rv32e_op_jal,
  rv32e_op_jalr, rv32e_op_load, rv32e_op_store, rv32e_op_mem, rv32e_op_os,
}

unfoldable pub decode_instruction_length : ℕ → InstSet
decode_instruction_length w = if field 0 2 w == 0b11 then InstSet.rv32e else InstSet.rvc

-- The types of 32-bit instructions, by opcode.
unfoldable pub base_type : ℕ → ℤ
base_type opcode =
    if opcode == rv32e_op
    then rv32e_r_type
    else if opcode == rv32e_op_imm
    then rv32e_i_type
    else if opcode == rv32e_op_branch
    then rv32e_b_type
    else if opcode == rv32e_op_lui
    then rv32e_u_type
    else if opcode == rv32e_op_auipc
    then rv32e_u_type
    else if opcode == rv32e_op_jal
    then rv32e_j_type
    else if opcode == rv32e_op_jalr
    then rv32e_i_type
    else if opcode == rv32e_op_load
    then rv32e_i_type
    else if opcode == rv32e_op_store
    then rv32e_s_type
    else if opcode == rv32e_op_mem
    then rv32e_misc_type
    else if opcode == rv32e_op_os
    then rv32e_misc_type
    else rv32e_bad_type

-- The types of 16-bit instructions, by quadrant, `funct3` and bits 11 and 10.
unfoldable pub quadrant_0_type : ℕ → ℤ
quadrant_0_type f3 =
    if f3 == 0b000
    then rv32c_ciw_type
    else if f3 == 0b010
    then rv32c_cl_type
    else if f3 == 0b110
    then rv32c_cs_type
    else rv32c_bad_type

unfoldable pub quadrant_1_type : ℕ → ℕ → ℤ
quadrant_1_type f3 bits =
    if f3 == 0b000
    then rv32c_ci_type
    else if f3 == 0b001
    then rv32c_cj_type
    else if f3 == 0b010
    then rv32c_ci_type
    else if f3 == 0b011
    then rv32c_ci_type
    else if f3 == 0b100
    then (if bits == 0b11 then rv32c_ca_type else rv32c_cb_type)
    else if f3 == 0b101
    then rv32c_cj_type
    else if f3 == 0b110
    then rv32c_cb_type
    else if f3 == 0b111
    then rv32c_cb_type
    else rv32c_bad_type

unfoldable pub quadrant_2_type : ℕ → ℤ
quadrant_2_type f3 =
    if f3 == 0b000
    then rv32c_ci_type
    else if f3 == 0b010
    then rv32c_ci_type
    else if f3 == 0b100
    then rv32c_cr_type
    else if f3 == 0b101
    then rv32c_css_type
    else if f3 == 0b110
    then rv32c_css_type
    else if f3 == 0b111
    then rv32c_css_type
    else rv32c_bad_type

unfoldable pub decode_instruction_type : ℕ → Option ℤ
decode_instruction_type w = elim (decode_instruction_length w) [
  | InstSet.rv32e ↦ some (base_type (field 0 7 w))
  | InstSet.rvc ↦
      if field 0 2 w == 0
      then some (quadrant_0_type (field 13 3 w))
      else if field 0 2 w == 1
      then some (quadrant_1_type (field 13 3 w) (field 10 2 w))
      else if field 0 2 w == 2
      then some (quadrant_2_type (field 13 3 w))
      else none
]
