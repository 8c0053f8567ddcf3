-- ===== src/Rv32/Joined.antt =====
-- The immediates of the compressed formats, sw/ELE749_projet1-develop/src/immediate.c, as the
-- specification defines them.
use rv.Common.{ℕ, ◌+◌, ◌*◌, ◌^◌, if◌then◌else◌}
use rv.Int.{ℤ}
use rv.Rv32.Codes.{Inst, same_int, field}
use rv.Rv32.Formats.{specified_type}
use rv.Rv32.Scatter.{sext}

abbrev pub six : ℕ → ℕ
six w = field 12 1 w * 2 ^ 5 + field 2 5 w

abbrev pub lwsp_bits : ℕ → ℕ
lwsp_bits w = field 2 2 w * 2 ^ 6 + field 12 1 w * 2 ^ 5 + field 4 3 w * 2 ^ 2

abbrev pub word_bits : ℕ → ℕ
word_bits w = field 5 1 w * 2 ^ 6 + field 10 3 w * 2 ^ 3 + field 6 1 w * 2 ^ 2

abbrev pub addi16sp_bits : ℕ → ℕ
addi16sp_bits w =
    field 12 1 w * 2 ^ 9
    + field 3 2 w * 2 ^ 7
    + field 5 1 w * 2 ^ 6
    + field 2 1 w * 2 ^ 5
    + field 6 1 w * 2 ^ 4

abbrev pub branch_bits : ℕ → ℕ
branch_bits w =
    field 12 1 w * 2 ^ 8
    + field 5 2 w * 2 ^ 6
    + field 2 1 w * 2 ^ 5
    + field 10 2 w * 2 ^ 3
    + field 3 2 w * 2

abbrev pub jump_bits : ℕ → ℕ
jump_bits w =
    field 12 1 w * 2 ^ 11
    + field 8 1 w * 2 ^ 10
    + field 9 2 w * 2 ^ 8
    + field 6 1 w * 2 ^ 7
    + field 7 1 w * 2 ^ 6
    + field 2 1 w * 2 ^ 5
    + field 11 1 w * 2 ^ 4
    + field 3 3 w * 2

abbrev pub swsp_bits : ℕ → ℕ
swsp_bits w = field 7 2 w * 2 ^ 6 + field 9 4 w * 2 ^ 2

-- The immediates that the specification gives the compressed instructions but C.ADDI4SPN.
abbrev pub specified_immediate : Inst → ℕ → ℕ
specified_immediate Inst.c_nop w = sext 6 (six w)
specified_immediate Inst.c_addi w = sext 6 (six w)
specified_immediate Inst.c_li w = sext 6 (six w)
specified_immediate Inst.c_lui w = sext 6 (six w)
specified_immediate Inst.c_andi w = sext 6 (six w)
specified_immediate Inst.c_slli w = six w
specified_immediate Inst.c_srli w = six w
specified_immediate Inst.c_srli64 w = six w
specified_immediate Inst.c_srai w = six w
specified_immediate Inst.c_srai64 w = six w
specified_immediate Inst.c_lwsp w = lwsp_bits w
specified_immediate Inst.c_swsp w = swsp_bits w
specified_immediate Inst.c_lw w = word_bits w
specified_immediate Inst.c_sw w = word_bits w
specified_immediate Inst.c_addi16sp w = sext 10 (addi16sp_bits w)
specified_immediate Inst.c_beqz w = sext 9 (branch_bits w)
specified_immediate Inst.c_bnez w = sext 9 (branch_bits w)
specified_immediate Inst.c_jal w = sext 12 (jump_bits w)
specified_immediate Inst.c_j w = sext 12 (jump_bits w)
specified_immediate _ w = 0

-- What a function for one format is to give: 0 for an instruction of another format.
abbrev pub immediate_in : ℤ → Inst → ℕ → ℕ
immediate_in type inst w =
    if same_int (specified_type inst) type then specified_immediate inst w else 0

-- `getCiwImmediate` shifts bits 9 to 6 of C.ADDI4SPN by two places too many, to 11 to 8.
abbrev pub ciw_with_shift : Inst → ℕ → ℕ
ciw_with_shift Inst.c_addi4spn w =
    field 7 4 w * 2 ^ 8 + field 11 2 w * 2 ^ 4 + field 5 1 w * 2 ^ 3 + field 6 1 w * 2 ^ 2
ciw_with_shift _ w = 0
