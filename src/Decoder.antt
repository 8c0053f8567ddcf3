-- ===== src/Decoder.antt =====
-- The instruction decoder, sw/src/decoder.c, with the constants of decoder.h and RV32I.h.
-- `x & MASK` with a mask of k low ones is `x % 2 ^ k`, and `x >> k` is `x / 2 ^ k`; the other masks
-- stay bit operations.
pub mod Fields
pub mod Immediate
mod Tests
use rv.Common.{◌==◌, if◌then◌else◌, ◌>>=◌, set, store, ℕ, ◌*◌, ◌/◌, ◌%◌, ◌^◌, bit_and, bit_or}

-- OPCODES, after `OFFSET_OP`.
abbrev pub op_op : ℕ
op_op = 0b01100

abbrev pub op_jalr : ℕ
op_jalr = 0b11001

abbrev pub op_imm : ℕ
op_imm = 0b00100

abbrev pub op_lui : ℕ
op_lui = 0b01101

abbrev pub op_auipc : ℕ
op_auipc = 0b00101

abbrev pub op_jal : ℕ
op_jal = 0b11011

abbrev pub op_branch : ℕ
op_branch = 0b11000

abbrev pub op_store : ℕ
op_store = 0b01000

abbrev pub op_load : ℕ
op_load = 0b00000

abbrev pub op_misc_mem : ℕ
op_misc_mem = 0b00011

abbrev pub op_system : ℕ
op_system = 0b11100

-- `struct inst_field`
pub record InstField : Type 0 where
  pub opcode : ℕ
  pub rd : ℕ
  pub rs1 : ℕ
  pub rs2 : ℕ
  pub funct7 : ℕ
  pub funct3 : ℕ
  pub immediate : ℕ

-- The local `char format`; `no_format` is 0.
pub data Format : Type 0 where
  r_format i_format s_format b_format u_format j_format no_format : Format

-- The field of `width` bits at `offset`.
abbrev pub field : ℕ → ℕ → ℕ → ℕ
field offset width instruction = instruction / 2 ^ offset % 2 ^ width

-- The first `switch`.
unfoldable pub format_of : ℕ → Format
format_of opcode =
    if opcode == op_op
    then r_format
    else if opcode == op_misc_mem
    then i_format
    else if opcode == op_system
    then i_format
    else if opcode == op_imm
    then i_format
    else if opcode == op_jalr
    then i_format
    else if opcode == op_load
    then i_format
    else if opcode == op_store
    then s_format
    else if opcode == op_branch
    then b_format
    else if opcode == op_lui
    then u_format
    else if opcode == op_auipc
    then u_format
    else if opcode == op_jal
    then j_format
    else no_format

-- The shifts bind tighter than `&`, and `&` tighter than `|`.
unfoldable pub b_immediate : ℕ → ℕ
b_immediate i =
    bit_or
      (bit_or (bit_or (i / 2 ^ 24) (bit_and (i / 2 ^ 7) (0x1 * 2 ^ 11)))
        (bit_and (i / 2 ^ 25) (0x3F * 2 ^ 5)))
      (bit_and (i / 2 ^ 8) (0xF * 2 ^ 1))

unfoldable pub j_immediate : ℕ → ℕ
j_immediate i =
    bit_or (bit_or (i / 2 ^ 11) (bit_and i 0x000FF000))
      (bit_and (bit_and i 0x00100000) (bit_and i 0x0FE00000))

-- `di` after the opcode and `rd`, all other fields zero.
abbrev pub base : ℕ → InstField
base i = record {
  opcode = field 2 5 i;
  rd = field 7 5 i;
  rs1 = 0;
  rs2 = 0;
  funct7 = 0;
  funct3 = 0;
  immediate = 0;
}

-- The second `switch`.
unfoldable pub main_decode : Format → ℕ → InstField
main_decode r_format i = record (base i) {
  rs1 = field 15 5 i;
  rs2 = field 20 5 i;
  funct7 = field 25 7 i;
  funct3 = field 12 3 i;
}
main_decode i_format i = record (base i) {
  rs1 = field 15 5 i;
  funct3 = field 12 3 i;
  immediate = i / 2 ^ 20;
}
main_decode s_format i = record (base i) { rs1 = field 15 5 i; rs2 = field 20 5 i }
main_decode b_format i = record (base i) {
  rs1 = field 15 5 i;
  rs2 = field 20 5 i;
  funct3 = field 12 3 i;
  immediate = b_immediate i;
}
main_decode u_format i = record (base i) { immediate = i / 2 ^ 12 * 2 ^ 12 }
main_decode j_format i = record (base i) { immediate = j_immediate i }
main_decode no_format i = base i

unfoldable pub decode : ℕ → InstField
unfolding format_of main_decode
decode i = main_decode (format_of (field 2 5 i)) i
