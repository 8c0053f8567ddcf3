-- ===== src/Disassembler/Base.antt =====
-- The texts of 32-bit instructions, sw/ELE749_projet1-develop/src/desassembly.c.
use rv.Common.{◌>>=◌, ℕ, ◌+◌, ◌/◌, ◌^◌, false, Option, none, some, List, ◌∷◌, ◌++◌}
use rv.Disassembler.Digits.{long_to_dec, bad_instruction, register, hex_number, base_register}
use rv.Disassembler.Names.{r_name, i_name, s_name, b_name, u_name, j_name, misc_name}
use rv.Word.{u32}
use rv.Rv32.Codes.{field}
use rv.Rv32.Decode.{decode_instruction}
use rv.Rv32.Immediate.{
  get_i_type_immediate, get_s_type_immediate, get_b_type_immediate, get_u_type_immediate,
  get_j_type_immediate,
}

-- Each function writes the name of the instruction and then its operands.
unfoldable pub build_inst_string_r_type : ℕ → Option (List ℕ)
build_inst_string_r_type w = do
  inst ← decode_instruction w
  elim (r_name inst) [
    | none ↦ some bad_instruction
    | some name ↦ some (
        name
        ++ (register (field 7 5 w) false
            ++ (register (field 15 5 w) false ++ register (field 20 5 w) false)))
  ]

unfoldable pub build_inst_string_i_type : ℕ → Option (List ℕ)
build_inst_string_i_type w = do
  inst ← decode_instruction w
  elim (i_name inst) [
    | none ↦ some bad_instruction
    | some name ↦ do
      imm ← get_i_type_immediate w
      some (
          name
          ++ (register (field 7 5 w) false
              ++ (register (field 15 5 w) false ++ (b' ' ∷ long_to_dec imm false))))
  ]

unfoldable pub build_inst_string_s_type : ℕ → Option (List ℕ)
build_inst_string_s_type w = do
  inst ← decode_instruction w
  elim (s_name inst) [
    | none ↦ some bad_instruction
    | some name ↦ some (
        name
        ++ (register (field 20 5 w) false
            ++ (hex_number (get_s_type_immediate w) ++ base_register (field 15 5 w) false)))
  ]

unfoldable pub build_inst_string_b_type : ℕ → Option (List ℕ)
build_inst_string_b_type w = do
  inst ← decode_instruction w
  elim (b_name inst) [
    | none ↦ some bad_instruction
    | some name ↦ some (
        name
        ++ (register (field 15 5 w) false
            ++ (register (field 20 5 w) false
                ++ (b' ' ∷ long_to_dec (get_b_type_immediate w) false))))
  ]

unfoldable pub build_inst_string_u_type : ℕ → Option (List ℕ)
build_inst_string_u_type w = do
  inst ← decode_instruction w
  elim (u_name inst) [
    | none ↦ some bad_instruction
    | some name ↦
        some
          (name ++ (register (field 7 5 w) false ++ hex_number (get_u_type_immediate w / 2 ^ 12)))
  ]

unfoldable pub build_inst_string_j_type : ℕ → ℕ → Option (List ℕ)
build_inst_string_j_type w pc = do
  inst ← decode_instruction w
  elim (j_name inst) [
    | none ↦ some bad_instruction
    | some name ↦
        some
          (name ++ (register (field 7 5 w) false ++ hex_number (u32 (get_j_type_immediate w + pc))))
  ]

unfoldable pub build_inst_string_misc_type : ℕ → Option (List ℕ)
build_inst_string_misc_type w = do
  inst ← decode_instruction w
  elim (misc_name inst) [ none ↦ some bad_instruction | some name ↦ some name ]
