-- ===== src/Rv32/Formats.antt =====
-- The formats that the RISC-V specification gives the instructions, as the types of RV32E.h and
-- RVC.h in sw/ELE749_projet1-develop/src.
use rv.Common.{if◌then◌else◌, Bool, true, false}
use rv.Int.{ℤ}
use rv.Rv32.Codes.{
  Inst, rv32e_bad_type, rv32c_bad_type, rv32e_r_type, rv32e_i_type, rv32e_s_type, rv32e_b_type,
  rv32e_u_type, rv32e_j_type, rv32e_misc_type, rv32c_cr_type, rv32c_ci_type, rv32c_css_type,
  rv32c_ciw_type, rv32c_cl_type, rv32c_cs_type, rv32c_ca_type, rv32c_cb_type, rv32c_cj_type,
}

-- The formats of the instructions in the specification.
abbrev pub specified_type : Inst → ℤ
specified_type Inst.rv32e_lui = rv32e_u_type
specified_type Inst.rv32e_auipc = rv32e_u_type
specified_type Inst.rv32e_jal = rv32e_j_type
specified_type Inst.rv32e_jalr = rv32e_i_type
specified_type Inst.rv32e_lb = rv32e_i_type
specified_type Inst.rv32e_lh = rv32e_i_type
specified_type Inst.rv32e_lw = rv32e_i_type
specified_type Inst.rv32e_lbu = rv32e_i_type
specified_type Inst.rv32e_lhu = rv32e_i_type
specified_type Inst.rv32e_addi = rv32e_i_type
specified_type Inst.rv32e_slti = rv32e_i_type
specified_type Inst.rv32e_sltiu = rv32e_i_type
specified_type Inst.rv32e_xori = rv32e_i_type
specified_type Inst.rv32e_ori = rv32e_i_type
specified_type Inst.rv32e_andi = rv32e_i_type
specified_type Inst.rv32e_slli = rv32e_i_type
specified_type Inst.rv32e_srli = rv32e_i_type
specified_type Inst.rv32e_srai = rv32e_i_type
specified_type Inst.rv32e_beq = rv32e_b_type
specified_type Inst.rv32e_bne = rv32e_b_type
specified_type Inst.rv32e_blt = rv32e_b_type
specified_type Inst.rv32e_bge = rv32e_b_type
specified_type Inst.rv32e_bltu = rv32e_b_type
specified_type Inst.rv32e_bgeu = rv32e_b_type
specified_type Inst.rv32e_sb = rv32e_s_type
specified_type Inst.rv32e_sh = rv32e_s_type
specified_type Inst.rv32e_sw = rv32e_s_type
specified_type Inst.rv32e_add = rv32e_r_type
specified_type Inst.rv32e_sub = rv32e_r_type
specified_type Inst.rv32e_sll = rv32e_r_type
specified_type Inst.rv32e_slt = rv32e_r_type
specified_type Inst.rv32e_sltu = rv32e_r_type
specified_type Inst.rv32e_xor = rv32e_r_type
specified_type Inst.rv32e_srl = rv32e_r_type
specified_type Inst.rv32e_sra = rv32e_r_type
specified_type Inst.rv32e_or = rv32e_r_type
specified_type Inst.rv32e_and = rv32e_r_type
specified_type Inst.rv32e_fence = rv32e_misc_type
specified_type Inst.rv32e_ecall = rv32e_misc_type
specified_type Inst.rv32e_ebreak = rv32e_misc_type
specified_type Inst.c_addi4spn = rv32c_ciw_type
specified_type Inst.c_lw = rv32c_cl_type
specified_type Inst.c_sw = rv32c_cs_type
specified_type Inst.c_nop = rv32c_ci_type
specified_type Inst.c_addi = rv32c_ci_type
specified_type Inst.c_li = rv32c_ci_type
specified_type Inst.c_addi16sp = rv32c_ci_type
specified_type Inst.c_lui = rv32c_ci_type
specified_type Inst.c_slli = rv32c_ci_type
specified_type Inst.c_slli64 = rv32c_ci_type
specified_type Inst.c_lwsp = rv32c_ci_type
specified_type Inst.c_jal = rv32c_cj_type
specified_type Inst.c_j = rv32c_cj_type
specified_type Inst.c_srli = rv32c_cb_type
specified_type Inst.c_srli64 = rv32c_cb_type
specified_type Inst.c_srai = rv32c_cb_type
specified_type Inst.c_srai64 = rv32c_cb_type
specified_type Inst.c_andi = rv32c_cb_type
specified_type Inst.c_beqz = rv32c_cb_type
specified_type Inst.c_bnez = rv32c_cb_type
specified_type Inst.c_sub = rv32c_ca_type
specified_type Inst.c_xor = rv32c_ca_type
specified_type Inst.c_or = rv32c_ca_type
specified_type Inst.c_and = rv32c_ca_type
specified_type Inst.c_jr = rv32c_cr_type
specified_type Inst.c_mv = rv32c_cr_type
specified_type Inst.c_ebreak = rv32c_cr_type
specified_type Inst.c_jalr = rv32c_cr_type
specified_type Inst.c_add = rv32c_cr_type
specified_type Inst.c_swsp = rv32c_css_type
specified_type Inst.c_fsd = rv32c_cs_type
specified_type _ = rv32e_bad_type

-- No instruction, or one that names an error.
abbrev pub is_bad : Inst → Bool
is_bad Inst.rv32e_bad_instruction = true
is_bad Inst.c_bad_instruction = true
is_bad _ = false

abbrev pub is_fsd : Inst → Bool
is_fsd Inst.c_fsd = true
is_fsd _ = false

-- C.FSD, which `decodeInstruction` knows and `decodeInstructionType` does not, has the type of an
-- error.
abbrev pub type_or_bad : Inst → ℤ
type_or_bad inst = if is_fsd inst then rv32c_bad_type else specified_type inst
