-- ===== src/Rv32/Operands.antt =====
-- `runInstruction` of sw/ELE749_projet1-develop/src/decoder.c, first part: the operand records. Of
-- the fifteen records that it allocates, at most one is set.
use rv.Common.{if◌then◌else◌, ◌>>=◌, ℕ, ◌%◌, ◌^◌, Option, none, some}
use rv.Int.{ℤ}
use rv.Rv32.Codes.{
  rv32e_r_type, rv32e_i_type, rv32e_s_type, rv32e_b_type, rv32e_u_type, rv32e_j_type, rv32c_cr_type,
  rv32c_ci_type, rv32c_css_type, rv32c_ciw_type, rv32c_cl_type, rv32c_cs_type, rv32c_ca_type,
  rv32c_cb_type, rv32c_cj_type, same_int, field,
}
use rv.Rv32.Immediate.{
  get_i_type_immediate, get_s_type_immediate, get_b_type_immediate, get_u_type_immediate,
  get_j_type_immediate, get_ci_immediate, get_css_immediate, get_ciw_immediate, get_cl_immediate,
  get_cs_immediate, get_cb_immediate, get_cj_immediate,
}
use rv.Rv32.Data.{
  RType, IType, SType, BType, UType, JType, CrType, CiType, CssType, CiwType, ClType, CsType,
  CaType, CbType, CjType,
}

-- The record that is set.
pub data Operands : Type 0 where
  r_data : RType → Operands
  i_data : IType → Operands
  s_data : SType → Operands
  b_data : BType → Operands
  u_data : UType → Operands
  j_data : JType → Operands
  cr_data : CrType → Operands
  ci_data : CiType → Operands
  css_data : CssType → Operands
  ciw_data : CiwType → Operands
  cl_data : ClType → Operands
  cs_data : CsType → Operands
  ca_data : CaType → Operands
  cb_data : CbType → Operands
  cj_data : CjType → Operands
  no_data : Operands

-- `MASK_RS1`, `MASK_RS2`, `MASK_RD`, and the fields of compressed instructions: `MASK_RD_RS1P` has
-- five bits, of which the fields of the records keep three.
abbrev pub rs1_field : ℕ → ℕ
rs1_field w = field 15 5 w

abbrev pub rs2_field : ℕ → ℕ
rs2_field w = field 20 5 w

abbrev pub rd_field : ℕ → ℕ
rd_field w = field 7 5 w

abbrev pub c_rs2_field : ℕ → ℕ
c_rs2_field w = field 2 5 w

abbrev pub low_p : ℕ → ℕ
low_p w = field 2 5 w % 2 ^ 3

abbrev pub high_p : ℕ → ℕ
high_p w = field 7 5 w % 2 ^ 3

-- A result `none` comes from `decodeInstruction`, called for the immediate.
unfoldable pub base_operands : ℤ → ℕ → Option Operands
base_operands type w =
    if same_int type rv32e_r_type
    then some (r_data (record { rs2 = rs2_field w; rs1 = rs1_field w; rd = rd_field w }))
    else if same_int type rv32e_i_type
    then (do
      imm ← get_i_type_immediate w
      some (i_data (record { imm = imm; rs1 = rs1_field w; rd = rd_field w })))
    else if same_int type rv32e_s_type
    then some
        (s_data (record { imm = get_s_type_immediate w; rs2 = rs2_field w; rs1 = rs1_field w }))
    else if same_int type rv32e_b_type
    then some
        (b_data (record { imm = get_b_type_immediate w; rs2 = rs2_field w; rs1 = rs1_field w }))
    else if same_int type rv32e_u_type
    then some (u_data (record { imm = get_u_type_immediate w; rd = rd_field w }))
    else if same_int type rv32e_j_type
    then some (j_data (record { imm = get_j_type_immediate w; rd = rd_field w }))
    else some no_data

unfoldable pub compressed_operands : ℤ → ℕ → Option Operands
compressed_operands type w =
    if same_int type rv32c_cr_type
    then some (cr_data (record { rd_rs1 = rd_field w; rs2 = c_rs2_field w }))
    else if same_int type rv32c_ci_type
    then (do imm ← get_ci_immediate w; some (ci_data (record { imm = imm; rd_rs1 = rd_field w })))
    else if same_int type rv32c_css_type
    then (do imm ← get_css_immediate w; some (css_data (record { imm = imm; rs2 = c_rs2_field w })))
    else if same_int type rv32c_ciw_type
    then (do imm ← get_ciw_immediate w; some (ciw_data (record { imm = imm; rd_p = low_p w })))
    else if same_int type rv32c_cl_type
    then (do
      imm ← get_cl_immediate w
      some (cl_data (record { imm = imm; rs1_p = high_p w; rd_p = low_p w })))
    else if same_int type rv32c_cs_type
    then (do
      imm ← get_cs_immediate w
      some (cs_data (record { imm = imm; rs1_p = high_p w; rs2_p = low_p w })))
    else if same_int type rv32c_ca_type
    then some (ca_data (record { rd_p_rs1_p = high_p w; rs2_p = low_p w }))
    else if same_int type rv32c_cb_type
    then (do imm ← get_cb_immediate w; some (cb_data (record { offset = imm; rs1_p = high_p w })))
    else if same_int type rv32c_cj_type
    then (do imm ← get_cj_immediate w; some (cj_data (record { jumptarget = imm })))
    else some no_data

-- The use of a record: one that was not set is read uninitialised.
abbrev pub r_set : Operands → Option RType
r_set (r_data d) = some d
r_set _ = none

abbrev pub i_set : Operands → Option IType
i_set (i_data d) = some d
i_set _ = none

abbrev pub s_set : Operands → Option SType
s_set (s_data d) = some d
s_set _ = none

abbrev pub b_set : Operands → Option BType
b_set (b_data d) = some d
b_set _ = none

abbrev pub u_set : Operands → Option UType
u_set (u_data d) = some d
u_set _ = none

abbrev pub j_set : Operands → Option JType
j_set (j_data d) = some d
j_set _ = none

abbrev pub cr_set : Operands → Option CrType
cr_set (cr_data d) = some d
cr_set _ = none

abbrev pub ci_set : Operands → Option CiType
ci_set (ci_data d) = some d
ci_set _ = none

abbrev pub css_set : Operands → Option CssType
css_set (css_data d) = some d
css_set _ = none

abbrev pub ciw_set : Operands → Option CiwType
ciw_set (ciw_data d) = some d
ciw_set _ = none

abbrev pub cl_set : Operands → Option ClType
cl_set (cl_data d) = some d
cl_set _ = none

abbrev pub cs_set : Operands → Option CsType
cs_set (cs_data d) = some d
cs_set _ = none

abbrev pub ca_set : Operands → Option CaType
ca_set (ca_data d) = some d
ca_set _ = none

abbrev pub cb_set : Operands → Option CbType
cb_set (cb_data d) = some d
cb_set _ = none

abbrev pub cj_set : Operands → Option CjType
cj_set (cj_data d) = some d
cj_set _ = none
