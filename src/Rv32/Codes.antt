-- ===== src/Rv32/Codes.antt =====
-- The constants and the data types of RV32E.h, RVC.h and decoder.h in
-- sw/ELE749_projet1-develop/src. Binary fields are natural numbers.
use rv.Common.{ℕ, ◌==◌, ◌/◌, ◌%◌, ◌^◌, ◌*◌, Bool, false}
use rv.Int.{ℤ, pos, negsuc}

-- `rv32eBaseInstructions` and `cInstructions`: their numbers differ, so one type holds both.
pub data Inst : Type 0 where
  rv32e_bad_instruction rv32e_lui rv32e_auipc rv32e_jal rv32e_jalr rv32e_beq rv32e_bne : Inst
  rv32e_blt rv32e_bge rv32e_bltu rv32e_bgeu rv32e_lb rv32e_lh rv32e_lw rv32e_lbu rv32e_lhu : Inst
  rv32e_sb rv32e_sh rv32e_sw rv32e_addi rv32e_slti rv32e_sltiu rv32e_xori rv32e_ori : Inst
  rv32e_andi rv32e_slli rv32e_srli rv32e_srai rv32e_add rv32e_sub rv32e_sll rv32e_slt : Inst
  rv32e_sltu rv32e_xor rv32e_srl rv32e_sra rv32e_or rv32e_and rv32e_fence rv32e_ecall : Inst
  rv32e_ebreak : Inst
  c_bad_instruction c_addi4spn c_lw c_fsd c_sw c_nop c_addi c_jal c_li c_addi16sp c_lui : Inst
  c_srli c_srli64 c_srai c_srai64 c_andi c_sub c_xor c_or c_and c_j c_beqz c_bnez c_slli : Inst
  c_slli64 c_lwsp c_jr c_mv c_ebreak c_jalr c_add c_swsp : Inst

-- `instructionSets`, without `BAD_FORMAT`, which nothing uses.
pub data InstSet : Type 0 where
  rv32e rvc : InstSet

-- `rv32eInstructionTypes` and `rv32cInstructionTypes`: the code keeps both in an `int`, and their
-- numbers overlap.
abbrev pub rv32e_bad_type : ℤ
rv32e_bad_type = negsuc 0

abbrev pub rv32e_r_type : ℤ
rv32e_r_type = pos 0

abbrev pub rv32e_i_type : ℤ
rv32e_i_type = pos 1

abbrev pub rv32e_s_type : ℤ
rv32e_s_type = pos 2

abbrev pub rv32e_b_type : ℤ
rv32e_b_type = pos 3

abbrev pub rv32e_u_type : ℤ
rv32e_u_type = pos 4

abbrev pub rv32e_j_type : ℤ
rv32e_j_type = pos 5

abbrev pub rv32e_misc_type : ℤ
rv32e_misc_type = pos 6

abbrev pub rv32c_bad_type : ℤ
rv32c_bad_type = negsuc 0

abbrev pub rv32c_cr_type : ℤ
rv32c_cr_type = pos 0

abbrev pub rv32c_ci_type : ℤ
rv32c_ci_type = pos 1

abbrev pub rv32c_css_type : ℤ
rv32c_css_type = pos 2

abbrev pub rv32c_ciw_type : ℤ
rv32c_ciw_type = pos 3

abbrev pub rv32c_cl_type : ℤ
rv32c_cl_type = pos 4

abbrev pub rv32c_cs_type : ℤ
rv32c_cs_type = pos 5

abbrev pub rv32c_ca_type : ℤ
rv32c_ca_type = pos 6

abbrev pub rv32c_cb_type : ℤ
rv32c_cb_type = pos 7

abbrev pub rv32c_cj_type : ℤ
rv32c_cj_type = pos 8

-- `==` of two numbers of type `int`.
abbrev pub same_int : ℤ → ℤ → Bool
same_int (pos a) (pos b) = a == b
same_int (negsuc a) (negsuc b) = a == b
same_int _ _ = false

-- `(w & MASK) >> offset`, for a mask of `width` ones at `offset`.
abbrev pub field : ℕ → ℕ → ℕ → ℕ
field offset width w = w / 2 ^ offset % 2 ^ width

-- `w & MASK`, for such a mask.
abbrev pub masked : ℕ → ℕ → ℕ → ℕ
masked offset width w = w / 2 ^ offset % 2 ^ width * 2 ^ offset

abbrev pub rv32e_op : ℕ
rv32e_op = 0b0110011

abbrev pub rv32e_op_imm : ℕ
rv32e_op_imm = 0b0010011

abbrev pub rv32e_op_branch : ℕ
rv32e_op_branch = 0b1100011

abbrev pub rv32e_op_lui : ℕ
rv32e_op_lui = 0b0110111

abbrev pub rv32e_op_auipc : ℕ
rv32e_op_auipc = 0b0010111

abbrev pub rv32e_op_jal : ℕ
rv32e_op_jal = 0b1101111

abbrev pub rv32e_op_jalr : ℕ
rv32e_op_jalr = 0b1100111

abbrev pub rv32e_op_load : ℕ
rv32e_op_load = 0b0000011

abbrev pub rv32e_op_store : ℕ
rv32e_op_store = 0b0100011

abbrev pub rv32e_op_mem : ℕ
rv32e_op_mem = 0b0001111

abbrev pub rv32e_op_os : ℕ
rv32e_op_os = 0b1110011
