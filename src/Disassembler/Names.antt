-- ===== src/Disassembler/Names.antt =====
-- The names that sw/ELE749_projet1-develop/src/desassembly.c writes, one table for each format.
use rv.Common.{ℕ, Option, none, some, List, [], ◌∷◌}
use rv.Rv32.Codes.{Inst}

abbrev pub r_name : Inst → Option (List ℕ)
r_name Inst.rv32e_add = some (b'A' ∷ b'D' ∷ b'D' ∷ [])
r_name Inst.rv32e_sub = some (b'S' ∷ b'U' ∷ b'B' ∷ [])
r_name Inst.rv32e_sll = some (b'S' ∷ b'L' ∷ b'L' ∷ [])
r_name Inst.rv32e_slt = some (b'S' ∷ b'L' ∷ b'T' ∷ [])
r_name Inst.rv32e_sltu = some (b'S' ∷ b'L' ∷ b'T' ∷ b'U' ∷ [])
r_name Inst.rv32e_xor = some (b'X' ∷ b'O' ∷ b'R' ∷ [])
r_name Inst.rv32e_srl = some (b'S' ∷ b'R' ∷ b'L' ∷ [])
r_name Inst.rv32e_sra = some (b'S' ∷ b'R' ∷ b'A' ∷ [])
r_name Inst.rv32e_or = some (b'O' ∷ b'R' ∷ [])
r_name Inst.rv32e_and = some (b'A' ∷ b'N' ∷ b'D' ∷ [])
r_name _ = none

abbrev pub i_name : Inst → Option (List ℕ)
i_name Inst.rv32e_jalr = some (b'J' ∷ b'A' ∷ b'L' ∷ b'R' ∷ [])
i_name Inst.rv32e_lb = some (b'L' ∷ b'B' ∷ [])
i_name Inst.rv32e_lh = some (b'L' ∷ b'H' ∷ [])
i_name Inst.rv32e_lw = some (b'L' ∷ b'W' ∷ [])
i_name Inst.rv32e_lbu = some (b'L' ∷ b'B' ∷ b'U' ∷ [])
i_name Inst.rv32e_lhu = some (b'L' ∷ b'H' ∷ b'U' ∷ [])
i_name Inst.rv32e_addi = some (b'A' ∷ b'D' ∷ b'D' ∷ b'I' ∷ [])
i_name Inst.rv32e_slti = some (b'S' ∷ b'L' ∷ b'T' ∷ b'I' ∷ [])
i_name Inst.rv32e_sltiu = some (b'S' ∷ b'L' ∷ b'T' ∷ b'I' ∷ b'U' ∷ [])
i_name Inst.rv32e_xori = some (b'X' ∷ b'O' ∷ b'R' ∷ b'I' ∷ [])
i_name Inst.rv32e_ori = some (b'O' ∷ b'R' ∷ b'I' ∷ [])
i_name Inst.rv32e_andi = some (b'A' ∷ b'N' ∷ b'D' ∷ b'I' ∷ [])
i_name Inst.rv32e_slli = some (b'S' ∷ b'L' ∷ b'L' ∷ b'I' ∷ [])
i_name Inst.rv32e_srli = some (b'S' ∷ b'R' ∷ b'L' ∷ b'I' ∷ [])
i_name Inst.rv32e_srai = some (b'S' ∷ b'R' ∷ b'A' ∷ b'I' ∷ [])
i_name _ = none

abbrev pub s_name : Inst → Option (List ℕ)
s_name Inst.rv32e_sb = some (b'S' ∷ b'B' ∷ [])
s_name Inst.rv32e_sh = some (b'S' ∷ b'H' ∷ [])
s_name Inst.rv32e_sw = some (b'S' ∷ b'W' ∷ [])
s_name _ = none

abbrev pub b_name : Inst → Option (List ℕ)
b_name Inst.rv32e_beq = some (b'B' ∷ b'E' ∷ b'Q' ∷ [])
b_name Inst.rv32e_bne = some (b'B' ∷ b'N' ∷ b'E' ∷ [])
b_name Inst.rv32e_blt = some (b'B' ∷ b'L' ∷ b'T' ∷ [])
b_name Inst.rv32e_bge = some (b'B' ∷ b'G' ∷ b'E' ∷ [])
b_name Inst.rv32e_bltu = some (b'B' ∷ b'L' ∷ b'T' ∷ b'U' ∷ [])
b_name Inst.rv32e_bgeu = some (b'B' ∷ b'G' ∷ b'E' ∷ b'U' ∷ [])
b_name _ = none

abbrev pub u_name : Inst → Option (List ℕ)
u_name Inst.rv32e_lui = some (b'L' ∷ b'U' ∷ b'I' ∷ [])
u_name Inst.rv32e_auipc = some (b'A' ∷ b'U' ∷ b'I' ∷ b'P' ∷ b'C' ∷ [])
u_name _ = none

abbrev pub j_name : Inst → Option (List ℕ)
j_name Inst.rv32e_jal = some (b'J' ∷ b'A' ∷ b'L' ∷ [])
j_name _ = none

abbrev pub misc_name : Inst → Option (List ℕ)
misc_name Inst.rv32e_fence = some (b'F' ∷ b'E' ∷ b'N' ∷ b'C' ∷ b'E' ∷ [])
misc_name Inst.rv32e_ecall = some (b'E' ∷ b'C' ∷ b'A' ∷ b'L' ∷ b'L' ∷ [])
misc_name Inst.rv32e_ebreak = some (b'E' ∷ b'B' ∷ b'R' ∷ b'E' ∷ b'A' ∷ b'K' ∷ [])
misc_name _ = none

abbrev pub cr_name : Inst → Option (List ℕ)
cr_name Inst.c_mv = some (b'C' ∷ b'.' ∷ b'M' ∷ b'V' ∷ [])
cr_name Inst.c_add = some (b'C' ∷ b'.' ∷ b'A' ∷ b'D' ∷ b'D' ∷ [])
cr_name Inst.c_sub = some (b'C' ∷ b'.' ∷ b'S' ∷ b'U' ∷ b'B' ∷ [])
cr_name Inst.c_xor = some (b'C' ∷ b'.' ∷ b'X' ∷ b'O' ∷ b'R' ∷ [])
cr_name Inst.c_or = some (b'C' ∷ b'.' ∷ b'O' ∷ b'R' ∷ [])
cr_name Inst.c_and = some (b'C' ∷ b'.' ∷ b'A' ∷ b'N' ∷ b'D' ∷ [])
cr_name Inst.c_jr = some (b'C' ∷ b'.' ∷ b'J' ∷ b'R' ∷ [])
cr_name Inst.c_jalr = some (b'C' ∷ b'.' ∷ b'J' ∷ b'A' ∷ b'L' ∷ b'R' ∷ [])
cr_name Inst.c_ebreak = some (b'C' ∷ b'.' ∷ b'E' ∷ b'B' ∷ b'R' ∷ b'E' ∷ b'A' ∷ b'K' ∷ [])
cr_name _ = none

abbrev pub ci_name : Inst → Option (List ℕ)
ci_name Inst.c_slli = some (b'C' ∷ b'.' ∷ b'S' ∷ b'L' ∷ b'L' ∷ b'I' ∷ [])
ci_name Inst.c_nop = some (b'C' ∷ b'.' ∷ b'N' ∷ b'O' ∷ b'P' ∷ [])
ci_name Inst.c_addi = some (b'C' ∷ b'.' ∷ b'A' ∷ b'D' ∷ b'D' ∷ b'I' ∷ [])
ci_name Inst.c_li = some (b'C' ∷ b'.' ∷ b'L' ∷ b'I' ∷ [])
ci_name Inst.c_lwsp = some (b'C' ∷ b'.' ∷ b'L' ∷ b'W' ∷ b'S' ∷ b'P' ∷ [])
ci_name Inst.c_addi16sp =
    some (b'C' ∷ b'.' ∷ b'A' ∷ b'D' ∷ b'D' ∷ b'I' ∷ b'1' ∷ b'6' ∷ b'S' ∷ b'P' ∷ [])
ci_name _ = none

abbrev pub css_name : Inst → Option (List ℕ)
css_name Inst.c_swsp = some (b'C' ∷ b'.' ∷ b'S' ∷ b'W' ∷ b'S' ∷ b'P' ∷ [])
css_name _ = none

abbrev pub ciw_name : Inst → Option (List ℕ)
ciw_name Inst.c_addi4spn =
    some (b'C' ∷ b'.' ∷ b'A' ∷ b'D' ∷ b'D' ∷ b'I' ∷ b'4' ∷ b'S' ∷ b'P' ∷ b'N' ∷ [])
ciw_name _ = none

abbrev pub cl_name : Inst → Option (List ℕ)
cl_name Inst.c_lw = some (b'C' ∷ b'.' ∷ b'L' ∷ b'W' ∷ [])
cl_name _ = none

abbrev pub cs_name : Inst → Option (List ℕ)
cs_name Inst.c_sw = some (b'C' ∷ b'.' ∷ b'S' ∷ b'W' ∷ [])
cs_name _ = none

abbrev pub ca_name : Inst → Option (List ℕ)
ca_name Inst.c_and = some (b'C' ∷ b'.' ∷ b'A' ∷ b'N' ∷ b'D' ∷ [])
ca_name Inst.c_or = some (b'C' ∷ b'.' ∷ b'O' ∷ b'R' ∷ [])
ca_name Inst.c_xor = some (b'C' ∷ b'.' ∷ b'X' ∷ b'O' ∷ b'R' ∷ [])
ca_name Inst.c_sub = some (b'C' ∷ b'.' ∷ b'S' ∷ b'U' ∷ b'B' ∷ [])
ca_name _ = none

abbrev pub cb_name : Inst → Option (List ℕ)
cb_name Inst.c_beqz = some (b'C' ∷ b'.' ∷ b'B' ∷ b'E' ∷ b'Q' ∷ b'Z' ∷ [])
cb_name Inst.c_bnez = some (b'C' ∷ b'.' ∷ b'B' ∷ b'N' ∷ b'E' ∷ b'Z' ∷ [])
cb_name Inst.c_srli = some (b'C' ∷ b'.' ∷ b'S' ∷ b'R' ∷ b'L' ∷ b'I' ∷ [])
cb_name Inst.c_srli64 = some (b'C' ∷ b'.' ∷ b'S' ∷ b'R' ∷ b'L' ∷ b'I' ∷ b'6' ∷ b'4' ∷ [])
cb_name Inst.c_srai = some (b'C' ∷ b'.' ∷ b'S' ∷ b'R' ∷ b'A' ∷ b'I' ∷ [])
cb_name Inst.c_srai64 = some (b'C' ∷ b'.' ∷ b'S' ∷ b'R' ∷ b'A' ∷ b'I' ∷ b'6' ∷ b'4' ∷ [])
cb_name Inst.c_andi = some (b'C' ∷ b'.' ∷ b'A' ∷ b'N' ∷ b'D' ∷ b'I' ∷ [])
cb_name _ = none

abbrev pub cj_name : Inst → Option (List ℕ)
cj_name Inst.c_j = some (b'C' ∷ b'.' ∷ b'J' ∷ [])
cj_name Inst.c_jal = some (b'C' ∷ b'.' ∷ b'J' ∷ b'A' ∷ b'L' ∷ [])
cj_name _ = none
