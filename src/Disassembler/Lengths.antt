-- ===== src/Disassembler/Lengths.antt =====
-- The names in the texts of sw/ELE749_projet1-develop/src/desassembly.c are short.
use rv.Common.{length, ℕ, ◌≤◌, List, arith, Yields, Yields-some, Yields-none}
use rv.Rv32.Codes.{Inst}
use rv.Disassembler.Names.{
  r_name, i_name, s_name, b_name, u_name, j_name, misc_name, cr_name, ci_name, css_name, ciw_name,
  cl_name, cs_name, ca_name, cb_name, cj_name,
}

pub record NoLonger (k : ℕ) (text : List ℕ) : Type 0 where
  pub bound : length text ≤ k

pub r_name-NoLonger : (inst : Inst) → Yields (NoLonger 4) (r_name inst)
r_name-NoLonger Inst.rv32e_add = Yields-some (NoLonger 4) (record { bound = omega arith })
r_name-NoLonger Inst.rv32e_sub = Yields-some (NoLonger 4) (record { bound = omega arith })
r_name-NoLonger Inst.rv32e_sll = Yields-some (NoLonger 4) (record { bound = omega arith })
r_name-NoLonger Inst.rv32e_slt = Yields-some (NoLonger 4) (record { bound = omega arith })
r_name-NoLonger Inst.rv32e_sltu = Yields-some (NoLonger 4) (record { bound = omega arith })
r_name-NoLonger Inst.rv32e_xor = Yields-some (NoLonger 4) (record { bound = omega arith })
r_name-NoLonger Inst.rv32e_srl = Yields-some (NoLonger 4) (record { bound = omega arith })
r_name-NoLonger Inst.rv32e_sra = Yields-some (NoLonger 4) (record { bound = omega arith })
r_name-NoLonger Inst.rv32e_or = Yields-some (NoLonger 4) (record { bound = omega arith })
r_name-NoLonger Inst.rv32e_and = Yields-some (NoLonger 4) (record { bound = omega arith })
r_name-NoLonger _ = Yields-none (NoLonger 4)

pub i_name-NoLonger : (inst : Inst) → Yields (NoLonger 5) (i_name inst)
i_name-NoLonger Inst.rv32e_jalr = Yields-some (NoLonger 5) (record { bound = omega arith })
i_name-NoLonger Inst.rv32e_lb = Yields-some (NoLonger 5) (record { bound = omega arith })
i_name-NoLonger Inst.rv32e_lh = Yields-some (NoLonger 5) (record { bound = omega arith })
i_name-NoLonger Inst.rv32e_lw = Yields-some (NoLonger 5) (record { bound = omega arith })
i_name-NoLonger Inst.rv32e_lbu = Yields-some (NoLonger 5) (record { bound = omega arith })
i_name-NoLonger Inst.rv32e_lhu = Yields-some (NoLonger 5) (record { bound = omega arith })
i_name-NoLonger Inst.rv32e_addi = Yields-some (NoLonger 5) (record { bound = omega arith })
i_name-NoLonger Inst.rv32e_slti = Yields-some (NoLonger 5) (record { bound = omega arith })
i_name-NoLonger Inst.rv32e_sltiu = Yields-some (NoLonger 5) (record { bound = omega arith })
i_name-NoLonger Inst.rv32e_xori = Yields-some (NoLonger 5) (record { bound = omega arith })
i_name-NoLonger Inst.rv32e_ori = Yields-some (NoLonger 5) (record { bound = omega arith })
i_name-NoLonger Inst.rv32e_andi = Yields-some (NoLonger 5) (record { bound = omega arith })
i_name-NoLonger Inst.rv32e_slli = Yields-some (NoLonger 5) (record { bound = omega arith })
i_name-NoLonger Inst.rv32e_srli = Yields-some (NoLonger 5) (record { bound = omega arith })
i_name-NoLonger Inst.rv32e_srai = Yields-some (NoLonger 5) (record { bound = omega arith })
i_name-NoLonger _ = Yields-none (NoLonger 5)

pub s_name-NoLonger : (inst : Inst) → Yields (NoLonger 2) (s_name inst)
s_name-NoLonger Inst.rv32e_sb = Yields-some (NoLonger 2) (record { bound = omega arith })
s_name-NoLonger Inst.rv32e_sh = Yields-some (NoLonger 2) (record { bound = omega arith })
s_name-NoLonger Inst.rv32e_sw = Yields-some (NoLonger 2) (record { bound = omega arith })
s_name-NoLonger _ = Yields-none (NoLonger 2)

pub b_name-NoLonger : (inst : Inst) → Yields (NoLonger 4) (b_name inst)
b_name-NoLonger Inst.rv32e_beq = Yields-some (NoLonger 4) (record { bound = omega arith })
b_name-NoLonger Inst.rv32e_bne = Yields-some (NoLonger 4) (record { bound = omega arith })
b_name-NoLonger Inst.rv32e_blt = Yields-some (NoLonger 4) (record { bound = omega arith })
b_name-NoLonger Inst.rv32e_bge = Yields-some (NoLonger 4) (record { bound = omega arith })
b_name-NoLonger Inst.rv32e_bltu = Yields-some (NoLonger 4) (record { bound = omega arith })
b_name-NoLonger Inst.rv32e_bgeu = Yields-some (NoLonger 4) (record { bound = omega arith })
b_name-NoLonger _ = Yields-none (NoLonger 4)

pub u_name-NoLonger : (inst : Inst) → Yields (NoLonger 5) (u_name inst)
u_name-NoLonger Inst.rv32e_lui = Yields-some (NoLonger 5) (record { bound = omega arith })
u_name-NoLonger Inst.rv32e_auipc = Yields-some (NoLonger 5) (record { bound = omega arith })
u_name-NoLonger _ = Yields-none (NoLonger 5)

pub j_name-NoLonger : (inst : Inst) → Yields (NoLonger 3) (j_name inst)
j_name-NoLonger Inst.rv32e_jal = Yields-some (NoLonger 3) (record { bound = omega arith })
j_name-NoLonger _ = Yields-none (NoLonger 3)

pub misc_name-NoLonger : (inst : Inst) → Yields (NoLonger 6) (misc_name inst)
misc_name-NoLonger Inst.rv32e_fence = Yields-some (NoLonger 6) (record { bound = omega arith })
misc_name-NoLonger Inst.rv32e_ecall = Yields-some (NoLonger 6) (record { bound = omega arith })
misc_name-NoLonger Inst.rv32e_ebreak = Yields-some (NoLonger 6) (record { bound = omega arith })
misc_name-NoLonger _ = Yields-none (NoLonger 6)

pub cr_name-NoLonger : (inst : Inst) → Yields (NoLonger 8) (cr_name inst)
cr_name-NoLonger Inst.c_mv = Yields-some (NoLonger 8) (record { bound = omega arith })
cr_name-NoLonger Inst.c_add = Yields-some (NoLonger 8) (record { bound = omega arith })
cr_name-NoLonger Inst.c_sub = Yields-some (NoLonger 8) (record { bound = omega arith })
cr_name-NoLonger Inst.c_xor = Yields-some (NoLonger 8) (record { bound = omega arith })
cr_name-NoLonger Inst.c_or = Yields-some (NoLonger 8) (record { bound = omega arith })
cr_name-NoLonger Inst.c_and = Yields-some (NoLonger 8) (record { bound = omega arith })
cr_name-NoLonger Inst.c_jr = Yields-some (NoLonger 8) (record { bound = omega arith })
cr_name-NoLonger Inst.c_jalr = Yields-some (NoLonger 8) (record { bound = omega arith })
cr_name-NoLonger Inst.c_ebreak = Yields-some (NoLonger 8) (record { bound = omega arith })
cr_name-NoLonger _ = Yields-none (NoLonger 8)

pub ci_name-NoLonger : (inst : Inst) → Yields (NoLonger 10) (ci_name inst)
ci_name-NoLonger Inst.c_slli = Yields-some (NoLonger 10) (record { bound = omega arith })
ci_name-NoLonger Inst.c_nop = Yields-some (NoLonger 10) (record { bound = omega arith })
ci_name-NoLonger Inst.c_addi = Yields-some (NoLonger 10) (record { bound = omega arith })
ci_name-NoLonger Inst.c_li = Yields-some (NoLonger 10) (record { bound = omega arith })
ci_name-NoLonger Inst.c_lwsp = Yields-some (NoLonger 10) (record { bound = omega arith })
ci_name-NoLonger Inst.c_addi16sp = Yields-some (NoLonger 10) (record { bound = omega arith })
ci_name-NoLonger _ = Yields-none (NoLonger 10)

pub css_name-NoLonger : (inst : Inst) → Yields (NoLonger 6) (css_name inst)
css_name-NoLonger Inst.c_swsp = Yields-some (NoLonger 6) (record { bound = omega arith })
css_name-NoLonger _ = Yields-none (NoLonger 6)

pub ciw_name-NoLonger : (inst : Inst) → Yields (NoLonger 10) (ciw_name inst)
ciw_name-NoLonger Inst.c_addi4spn = Yields-some (NoLonger 10) (record { bound = omega arith })
ciw_name-NoLonger _ = Yields-none (NoLonger 10)

pub cl_name-NoLonger : (inst : Inst) → Yields (NoLonger 4) (cl_name inst)
cl_name-NoLonger Inst.c_lw = Yields-some (NoLonger 4) (record { bound = omega arith })
cl_name-NoLonger _ = Yields-none (NoLonger 4)

pub cs_name-NoLonger : (inst : Inst) → Yields (NoLonger 4) (cs_name inst)
cs_name-NoLonger Inst.c_sw = Yields-some (NoLonger 4) (record { bound = omega arith })
cs_name-NoLonger _ = Yields-none (NoLonger 4)

pub ca_name-NoLonger : (inst : Inst) → Yields (NoLonger 5) (ca_name inst)
ca_name-NoLonger Inst.c_and = Yields-some (NoLonger 5) (record { bound = omega arith })
ca_name-NoLonger Inst.c_or = Yields-some (NoLonger 5) (record { bound = omega arith })
ca_name-NoLonger Inst.c_xor = Yields-some (NoLonger 5) (record { bound = omega arith })
ca_name-NoLonger Inst.c_sub = Yields-some (NoLonger 5) (record { bound = omega arith })
ca_name-NoLonger _ = Yields-none (NoLonger 5)

pub cb_name-NoLonger : (inst : Inst) → Yields (NoLonger 8) (cb_name inst)
cb_name-NoLonger Inst.c_beqz = Yields-some (NoLonger 8) (record { bound = omega arith })
cb_name-NoLonger Inst.c_bnez = Yields-some (NoLonger 8) (record { bound = omega arith })
cb_name-NoLonger Inst.c_srli = Yields-some (NoLonger 8) (record { bound = omega arith })
cb_name-NoLonger Inst.c_srli64 = Yields-some (NoLonger 8) (record { bound = omega arith })
cb_name-NoLonger Inst.c_srai = Yields-some (NoLonger 8) (record { bound = omega arith })
cb_name-NoLonger Inst.c_srai64 = Yields-some (NoLonger 8) (record { bound = omega arith })
cb_name-NoLonger Inst.c_andi = Yields-some (NoLonger 8) (record { bound = omega arith })
cb_name-NoLonger _ = Yields-none (NoLonger 8)

pub cj_name-NoLonger : (inst : Inst) → Yields (NoLonger 5) (cj_name inst)
cj_name-NoLonger Inst.c_j = Yields-some (NoLonger 5) (record { bound = omega arith })
cj_name-NoLonger Inst.c_jal = Yields-some (NoLonger 5) (record { bound = omega arith })
cj_name-NoLonger _ = Yields-none (NoLonger 5)
