-- ===== src/Disassembler/Compressed.antt =====
-- The texts of compressed instructions, sw/ELE749_projet1-develop/src/desassembly.c.
use rv.Common.{
  if◌then◌else◌, ◌>>=◌, ℕ, ◌+◌, Bool, true, false, Option, none, some, List, [], ◌∷◌, ◌++◌,
}
use rv.Disassembler.Digits.{long_to_dec, bad_instruction, register, hex_number, base_register}
use rv.Disassembler.Names.{
  cr_name, ci_name, css_name, ciw_name, cl_name, cs_name, ca_name, cb_name, cj_name,
}
use rv.Word.{u32}
use rv.Rv32.Codes.{Inst, field}
use rv.Rv32.Decode.{decode_instruction}
use rv.Rv32.Immediate.{
  get_ci_immediate, get_css_immediate, get_ciw_immediate, get_cl_immediate, get_cs_immediate,
  get_cb_immediate, get_cj_immediate,
}
use rv.Rv32.Compressed.{rp_shift}

-- C.JR and C.JALR have one register, C.EBREAK has none.
abbrev pub has_rs1 : Inst → Bool
has_rs1 Inst.c_ebreak = false
has_rs1 _ = true

abbrev pub has_rs2 : Inst → Bool
has_rs2 Inst.c_jr = false
has_rs2 Inst.c_jalr = false
has_rs2 Inst.c_ebreak = false
has_rs2 _ = true

-- The immediates that are written as unsigned numbers.
abbrev pub sign_immediate : Inst → Bool
sign_immediate Inst.c_slli = true
sign_immediate Inst.c_lwsp = true
sign_immediate _ = false

unfoldable pub build_inst_string_cr_type : ℕ → Option (List ℕ)
build_inst_string_cr_type w = do
  inst ← decode_instruction w
  elim (cr_name inst) [
    | none ↦ some bad_instruction
    | some name ↦ some (
        name
        ++ ((if has_rs1 inst then register (field 7 5 w) true else [])
            ++ (if has_rs2 inst then register (field 2 5 w) true else [])))
  ]

unfoldable pub build_inst_string_ci_type : ℕ → Option (List ℕ)
build_inst_string_ci_type w = do
  inst ← decode_instruction w
  elim (ci_name inst) [
    | none ↦ some bad_instruction
    | some name ↦ do
      imm ← get_ci_immediate w
      some (name ++ (register (field 7 5 w) true ++ (b' ' ∷ long_to_dec imm (sign_immediate inst))))
  ]

unfoldable pub build_inst_string_css_type : ℕ → Option (List ℕ)
build_inst_string_css_type w = do
  inst ← decode_instruction w
  elim (css_name inst) [
    | none ↦ some bad_instruction
    | some name ↦ do
      imm ← get_css_immediate w
      some (
          name
          ++ (register (field 2 5 w) true ++ (hex_number imm ++ (b'(' ∷ b'x' ∷ b'2' ∷ b')' ∷ []))))
  ]

unfoldable pub build_inst_string_ciw_type : ℕ → Option (List ℕ)
build_inst_string_ciw_type w = do
  inst ← decode_instruction w
  elim (ciw_name inst) [
    | none ↦ some bad_instruction
    | some name ↦ do
      imm ← get_ciw_immediate w
      some (
          name ++ (register (rp_shift (field 2 3 w)) true ++ (b' ' ∷ b'x' ∷ b'2' ∷ hex_number imm)))
  ]

unfoldable pub build_inst_string_cl_type : ℕ → Option (List ℕ)
build_inst_string_cl_type w = do
  inst ← decode_instruction w
  elim (cl_name inst) [
    | none ↦ some bad_instruction
    | some name ↦ do
      imm ← get_cl_immediate w
      some (
          name
          ++ (register (rp_shift (field 2 3 w)) true
              ++ (hex_number imm ++ base_register (rp_shift (field 7 3 w)) true)))
  ]

unfoldable pub build_inst_string_cs_type : ℕ → Option (List ℕ)
build_inst_string_cs_type w = do
  inst ← decode_instruction w
  elim (cs_name inst) [
    | none ↦ some bad_instruction
    | some name ↦ do
      imm ← get_cs_immediate w
      some (
          name
          ++ (register (rp_shift (field 2 3 w)) true
              ++ (hex_number imm ++ base_register (rp_shift (field 7 3 w)) true)))
  ]

unfoldable pub build_inst_string_ca_type : ℕ → Option (List ℕ)
build_inst_string_ca_type w = do
  inst ← decode_instruction w
  elim (ca_name inst) [
    | none ↦ some bad_instruction
    | some name ↦
        some (
          name
          ++ (register (rp_shift (field 7 3 w)) true ++ register (rp_shift (field 2 3 w)) true))
  ]

unfoldable pub build_inst_string_cb_type : ℕ → Option (List ℕ)
build_inst_string_cb_type w = do
  inst ← decode_instruction w
  elim (cb_name inst) [
    | none ↦ some bad_instruction
    | some name ↦ do
      imm ← get_cb_immediate w
      some (name ++ (register (rp_shift (field 7 3 w)) true ++ (b' ' ∷ long_to_dec imm false)))
  ]

unfoldable pub build_inst_string_cj_type : ℕ → ℕ → Option (List ℕ)
build_inst_string_cj_type w pc = do
  inst ← decode_instruction w
  elim (cj_name inst) [
    | none ↦ some bad_instruction
    | some name ↦ do imm ← get_cj_immediate w; some (name ++ hex_number (u32 (imm + pc)))
  ]
