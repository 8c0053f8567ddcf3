-- ===== src/Disassembler/Tests.antt =====
-- Witnesses for the theorems about sw/ELE749_projet1-develop/src/desassembly.c.
use rv.Common.{
  All, ◌≢◌, if◌then◌else◌, length, ℕ, ◌≤◌, ◌≡◌, refl, true, false, some, List, [], ◌∷◌, ◌++◌, arith,
}
use rv.Word.{is_neg, abs32}
use rv.Rv32.Types.{decode_instruction_length, base_type, decode_instruction_type}
use rv.Rv32.Decode.{decode_op_imm, decode_base, decode_instruction}
use rv.Rv32.Immediate.{get_i_type_immediate}
use rv.Disassembler.{build_inst_string_rv32e, build_inst_string}
use rv.Disassembler.Digits.{digits, long_to_dec}
use rv.Disassembler.Base.{build_inst_string_i_type}
use rv.Disassembler.Numbers.{IsDigit, read_dec, long_to_dec-meaning}
use rv.Disassembler.Bounds.{build_inst_string-NoLonger}

-- "ADDI x5 x0 -3"
abbrev addi_text : List ℕ
addi_text =
    b'A' ∷ b'D' ∷ b'D' ∷ b'I' ∷ b' ' ∷ b'x' ∷ b'5' ∷ b' ' ∷ b'x' ∷ b'0' ∷ b' ' ∷ b'-' ∷ b'3' ∷ []

addi-text : build_inst_string true 0xFFD00293 0 ≡ some (some addi_text)
unfolding build_inst_string build_inst_string_rv32e build_inst_string_i_type long_to_dec digits
    decode_instruction decode_instruction_type decode_instruction_length decode_base decode_op_imm
    base_type get_i_type_immediate
addi-text = refl

build_inst_string-NoLonger_example : length addi_text ≤ 28
build_inst_string-NoLonger_example =
    build_inst_string-NoLonger true 0xFFD00293 0 addi_text addi-text

long_to_dec-meaning_example :
    All IsDigit (long_to_dec 0xFFFFFFFD true)
    × (long_to_dec 0xFFFFFFFD true ≢ [])
    × (read_dec (long_to_dec 0xFFFFFFFD true) 0 ≡ 0xFFFFFFFD)
    × (long_to_dec 0xFFFFFFFD false
        ≡ (if is_neg 0xFFFFFFFD then b'-' ∷ [] else []) ++ long_to_dec (abs32 0xFFFFFFFD) true)
long_to_dec-meaning_example = long_to_dec-meaning 0xFFFFFFFD (omega arith) (omega arith)
