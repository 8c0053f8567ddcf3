-- ===== src/Disassembler.antt =====
-- The disassembler of sw/ELE749_projet1-develop/src/desassembly.c. A text is the list of the bytes
-- before its terminator. `pc` is the program counter.
pub mod Names
pub mod Digits
pub mod Base
pub mod Compressed
pub mod Numbers
pub mod Lengths
pub mod Pieces
pub mod Compact
pub mod Bounds
mod Tests
use rv.Common.{if◌then◌else◌, ◌>>=◌, length, ℕ, Bool, not, Option, none, some, List, [], ◌∷◌}
use rv.Disassembler.Digits.{bad_instruction}
use rv.Disassembler.Base.{
  build_inst_string_r_type, build_inst_string_i_type, build_inst_string_s_type,
  build_inst_string_b_type, build_inst_string_u_type, build_inst_string_j_type,
  build_inst_string_misc_type,
}
use rv.Disassembler.Compressed.{
  build_inst_string_cr_type, build_inst_string_ci_type, build_inst_string_css_type,
  build_inst_string_ciw_type, build_inst_string_cl_type, build_inst_string_cs_type,
  build_inst_string_ca_type, build_inst_string_cb_type, build_inst_string_cj_type,
}
use rv.Proc.{ProcState, proc_get_pc}
use rv.Rv32.Codes.{
  Inst, InstSet, rv32e_r_type, rv32e_i_type, rv32e_s_type, rv32e_b_type, rv32e_u_type, rv32e_j_type,
  rv32e_misc_type, rv32c_cr_type, rv32c_ci_type, rv32c_css_type, rv32c_ciw_type, rv32c_cl_type,
  rv32c_cs_type, rv32c_ca_type, rv32c_cb_type, rv32c_cj_type, same_int,
}
use rv.Rv32.Types.{decode_instruction_length, decode_instruction_type}
use rv.Rv32.Decode.{decode_instruction}
use rv.Rv32.Data.{move}

unfoldable pub build_inst_string_rv32e : ℕ → ℕ → Option (List ℕ)
build_inst_string_rv32e w pc = do
  type ← decode_instruction_type w
  if same_int type rv32e_r_type
      then build_inst_string_r_type w
      else if same_int type rv32e_i_type
      then build_inst_string_i_type w
      else if same_int type rv32e_s_type
      then build_inst_string_s_type w
      else if same_int type rv32e_b_type
      then build_inst_string_b_type w
      else if same_int type rv32e_u_type
      then build_inst_string_u_type w
      else if same_int type rv32e_j_type
      then build_inst_string_j_type w pc
      else if same_int type rv32e_misc_type
      then build_inst_string_misc_type w
      else some bad_instruction

unfoldable pub build_inst_string_rv32ec : ℕ → ℕ → Option (List ℕ)
build_inst_string_rv32ec w pc = do
  type ← decode_instruction_type w
  if same_int type rv32c_cr_type
      then build_inst_string_cr_type w
      else if same_int type rv32c_ci_type
      then build_inst_string_ci_type w
      else if same_int type rv32c_css_type
      then build_inst_string_css_type w
      else if same_int type rv32c_ciw_type
      then build_inst_string_ciw_type w
      else if same_int type rv32c_cl_type
      then build_inst_string_cl_type w
      else if same_int type rv32c_cs_type
      then build_inst_string_cs_type w
      else if same_int type rv32c_ca_type
      then build_inst_string_ca_type w
      else if same_int type rv32c_cb_type
      then build_inst_string_cb_type w
      else if same_int type rv32c_cj_type
      then build_inst_string_cj_type w pc
      else some bad_instruction

-- `malloc` says whether the text gets its 40 bytes; without them the result is NULL.
unfoldable pub build_inst_string : Bool → ℕ → ℕ → Option (Option (List ℕ))
build_inst_string malloc w pc =
    if not malloc then some none else elim (decode_instruction_length w) [
      | InstSet.rv32e ↦ do text ← build_inst_string_rv32e w pc; some (some text)
      | InstSet.rvc ↦ do text ← build_inst_string_rv32ec w pc; some (some text)
    ]

-- The table of the texts; `printf` of a NULL is undefined. The counter moves by 4 for each word.
unfoldable pub build_inst_txt_tab :
    (ℕ → Bool) → List ℕ → ProcState → Option (List (List ℕ) × ProcState)
build_inst_txt_tab malloc [] p = some ([], p)
build_inst_txt_tab malloc (w ∷ ws) p = do
  r ← build_inst_string (malloc (length ws)) w (proc_get_pc p)
  text ← r
  rest ← build_inst_txt_tab malloc ws (move 4 p)
  some (text ∷ rest.0, rest.1)
