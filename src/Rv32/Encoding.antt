-- ===== src/Rv32/Encoding.antt =====
-- The encodings of the base instructions in the RISC-V specification, and what the decoder of
-- sw/ELE749_projet1-develop/src/decoder.c makes of them.
use rv.Common.{ℕ, ◌≡◌, some, arith}
use rv.Rv32.Codes.{Inst, field}
use rv.Rv32.Types.{decode_instruction_length}
use rv.Rv32.Decode.{
  decode_op, decode_op_imm, decode_branch, decode_load, decode_store, decode_base,
  decode_instruction,
}

-- A word that the specification gives to an instruction, by opcode, `funct3` and `funct7`. FENCE is
-- left out.
pub data Encodes (w : ℕ) : Inst → Type 0 where
  lui_word : field 0 7 w ≡ 0b0110111 → Encodes w Inst.rv32e_lui
  auipc_word : field 0 7 w ≡ 0b0010111 → Encodes w Inst.rv32e_auipc
  jal_word : field 0 7 w ≡ 0b1101111 → Encodes w Inst.rv32e_jal
  jalr_word : field 0 7 w ≡ 0b1100111 → field 12 3 w ≡ 0b000 → Encodes w Inst.rv32e_jalr
  beq_word : field 0 7 w ≡ 0b1100011 → field 12 3 w ≡ 0b000 → Encodes w Inst.rv32e_beq
  bne_word : field 0 7 w ≡ 0b1100011 → field 12 3 w ≡ 0b001 → Encodes w Inst.rv32e_bne
  blt_word : field 0 7 w ≡ 0b1100011 → field 12 3 w ≡ 0b100 → Encodes w Inst.rv32e_blt
  bge_word : field 0 7 w ≡ 0b1100011 → field 12 3 w ≡ 0b101 → Encodes w Inst.rv32e_bge
  bltu_word : field 0 7 w ≡ 0b1100011 → field 12 3 w ≡ 0b110 → Encodes w Inst.rv32e_bltu
  bgeu_word : field 0 7 w ≡ 0b1100011 → field 12 3 w ≡ 0b111 → Encodes w Inst.rv32e_bgeu
  lb_word : field 0 7 w ≡ 0b0000011 → field 12 3 w ≡ 0b000 → Encodes w Inst.rv32e_lb
  lh_word : field 0 7 w ≡ 0b0000011 → field 12 3 w ≡ 0b001 → Encodes w Inst.rv32e_lh
  lw_word : field 0 7 w ≡ 0b0000011 → field 12 3 w ≡ 0b010 → Encodes w Inst.rv32e_lw
  lbu_word : field 0 7 w ≡ 0b0000011 → field 12 3 w ≡ 0b100 → Encodes w Inst.rv32e_lbu
  lhu_word : field 0 7 w ≡ 0b0000011 → field 12 3 w ≡ 0b101 → Encodes w Inst.rv32e_lhu
  sb_word : field 0 7 w ≡ 0b0100011 → field 12 3 w ≡ 0b000 → Encodes w Inst.rv32e_sb
  sh_word : field 0 7 w ≡ 0b0100011 → field 12 3 w ≡ 0b001 → Encodes w Inst.rv32e_sh
  sw_word : field 0 7 w ≡ 0b0100011 → field 12 3 w ≡ 0b010 → Encodes w Inst.rv32e_sw
  addi_word : field 0 7 w ≡ 0b0010011 → field 12 3 w ≡ 0b000 → Encodes w Inst.rv32e_addi
  slti_word : field 0 7 w ≡ 0b0010011 → field 12 3 w ≡ 0b010 → Encodes w Inst.rv32e_slti
  sltiu_word : field 0 7 w ≡ 0b0010011 → field 12 3 w ≡ 0b011 → Encodes w Inst.rv32e_sltiu
  xori_word : field 0 7 w ≡ 0b0010011 → field 12 3 w ≡ 0b100 → Encodes w Inst.rv32e_xori
  ori_word : field 0 7 w ≡ 0b0010011 → field 12 3 w ≡ 0b110 → Encodes w Inst.rv32e_ori
  andi_word : field 0 7 w ≡ 0b0010011 → field 12 3 w ≡ 0b111 → Encodes w Inst.rv32e_andi
  slli_word :
      field 0 7 w ≡ 0b0010011
      → field 12 3 w ≡ 0b001
      → field 25 7 w ≡ 0x00
      → Encodes w Inst.rv32e_slli
  srli_word :
      field 0 7 w ≡ 0b0010011
      → field 12 3 w ≡ 0b101
      → field 25 7 w ≡ 0x00
      → Encodes w Inst.rv32e_srli
  srai_word :
      field 0 7 w ≡ 0b0010011
      → field 12 3 w ≡ 0b101
      → field 25 7 w ≡ 0x20
      → Encodes w Inst.rv32e_srai
  add_word :
      field 0 7 w ≡ 0b0110011
      → field 12 3 w ≡ 0b000
      → field 25 7 w ≡ 0x00
      → Encodes w Inst.rv32e_add
  sub_word :
      field 0 7 w ≡ 0b0110011
      → field 12 3 w ≡ 0b000
      → field 25 7 w ≡ 0x20
      → Encodes w Inst.rv32e_sub
  sll_word :
      field 0 7 w ≡ 0b0110011
      → field 12 3 w ≡ 0b001
      → field 25 7 w ≡ 0x00
      → Encodes w Inst.rv32e_sll
  slt_word :
      field 0 7 w ≡ 0b0110011
      → field 12 3 w ≡ 0b010
      → field 25 7 w ≡ 0x00
      → Encodes w Inst.rv32e_slt
  sltu_word :
      field 0 7 w ≡ 0b0110011
      → field 12 3 w ≡ 0b011
      → field 25 7 w ≡ 0x00
      → Encodes w Inst.rv32e_sltu
  xor_word :
      field 0 7 w ≡ 0b0110011
      → field 12 3 w ≡ 0b100
      → field 25 7 w ≡ 0x00
      → Encodes w Inst.rv32e_xor
  srl_word :
      field 0 7 w ≡ 0b0110011
      → field 12 3 w ≡ 0b101
      → field 25 7 w ≡ 0x00
      → Encodes w Inst.rv32e_srl
  sra_word :
      field 0 7 w ≡ 0b0110011
      → field 12 3 w ≡ 0b101
      → field 25 7 w ≡ 0x20
      → Encodes w Inst.rv32e_sra
  or_word :
      field 0 7 w ≡ 0b0110011 → field 12 3 w ≡ 0b110 → field 25 7 w ≡ 0x00 → Encodes w Inst.rv32e_or
  and_word :
      field 0 7 w ≡ 0b0110011
      → field 12 3 w ≡ 0b111
      → field 25 7 w ≡ 0x00
      → Encodes w Inst.rv32e_and
  ecall_word : field 0 7 w ≡ 0b1110011 → field 20 12 w ≡ 0 → Encodes w Inst.rv32e_ecall
  ebreak_word : field 0 7 w ≡ 0b1110011 → field 20 12 w ≡ 1 → Encodes w Inst.rv32e_ebreak

-- A word that the RISC-V specification gives to one of the 39 base instructions, by opcode, funct3
-- and funct7, decodes to that instruction.
pub decode_instruction-Encodes :
    (w : ℕ) {inst : Inst} → Encodes w inst → decode_instruction w ≡ some inst
unfolding decode_instruction decode_instruction_length decode_base decode_op decode_op_imm
    decode_branch decode_load decode_store
decode_instruction-Encodes w (Encodes.lui_word a) = ground arith
decode_instruction-Encodes w (Encodes.auipc_word a) = ground arith
decode_instruction-Encodes w (Encodes.jal_word a) = ground arith
decode_instruction-Encodes w (Encodes.jalr_word a b) = ground arith
decode_instruction-Encodes w (Encodes.beq_word a b) = ground arith
decode_instruction-Encodes w (Encodes.bne_word a b) = ground arith
decode_instruction-Encodes w (Encodes.blt_word a b) = ground arith
decode_instruction-Encodes w (Encodes.bge_word a b) = ground arith
decode_instruction-Encodes w (Encodes.bltu_word a b) = ground arith
decode_instruction-Encodes w (Encodes.bgeu_word a b) = ground arith
decode_instruction-Encodes w (Encodes.lb_word a b) = ground arith
decode_instruction-Encodes w (Encodes.lh_word a b) = ground arith
decode_instruction-Encodes w (Encodes.lw_word a b) = ground arith
decode_instruction-Encodes w (Encodes.lbu_word a b) = ground arith
decode_instruction-Encodes w (Encodes.lhu_word a b) = ground arith
decode_instruction-Encodes w (Encodes.sb_word a b) = ground arith
decode_instruction-Encodes w (Encodes.sh_word a b) = ground arith
decode_instruction-Encodes w (Encodes.sw_word a b) = ground arith
decode_instruction-Encodes w (Encodes.addi_word a b) = ground arith
decode_instruction-Encodes w (Encodes.slti_word a b) = ground arith
decode_instruction-Encodes w (Encodes.sltiu_word a b) = ground arith
decode_instruction-Encodes w (Encodes.xori_word a b) = ground arith
decode_instruction-Encodes w (Encodes.ori_word a b) = ground arith
decode_instruction-Encodes w (Encodes.andi_word a b) = ground arith
decode_instruction-Encodes w (Encodes.slli_word a b c) = ground arith
decode_instruction-Encodes w (Encodes.srli_word a b c) = ground arith
decode_instruction-Encodes w (Encodes.srai_word a b c) = ground arith
decode_instruction-Encodes w (Encodes.add_word a b c) = ground arith
decode_instruction-Encodes w (Encodes.sub_word a b c) = ground arith
decode_instruction-Encodes w (Encodes.sll_word a b c) = ground arith
decode_instruction-Encodes w (Encodes.slt_word a b c) = ground arith
decode_instruction-Encodes w (Encodes.sltu_word a b c) = ground arith
decode_instruction-Encodes w (Encodes.xor_word a b c) = ground arith
decode_instruction-Encodes w (Encodes.srl_word a b c) = ground arith
decode_instruction-Encodes w (Encodes.sra_word a b c) = ground arith
decode_instruction-Encodes w (Encodes.or_word a b c) = ground arith
decode_instruction-Encodes w (Encodes.and_word a b c) = ground arith
decode_instruction-Encodes w (Encodes.ecall_word a b) = ground arith
decode_instruction-Encodes w (Encodes.ebreak_word a b) = ground arith
