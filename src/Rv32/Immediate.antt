-- ===== src/Rv32/Immediate.antt =====
-- The immediates of the instruction formats, sw/ELE749_projet1-develop/src/immediate.c, with the
-- masks of desassembly.h. The result is the pattern of an `int32_t`.
use rv.Common.{
  ◌==◌, if◌then◌else◌, ◌>>=◌, ℕ, ◌-◌, ◌*◌, ◌/◌, ◌^◌, bit_and, bit_or, Bool, true, false, Option,
  some,
}
use rv.Word.{is_neg, sra32}
use rv.Rv32.Codes.{Inst, field, masked}
use rv.Rv32.Decode.{decode_instruction}

-- `if(instruction & MASK_SIGN_BIT) immediate |= bits;`
abbrev pub extend : ℕ → ℕ → ℕ → ℕ
extend bits w imm = if is_neg w then bit_or imm bits else imm

-- `(hi << width) | lo`
abbrev pub join : ℕ → ℕ → ℕ → ℕ
join width hi lo = bit_or (hi * 2 ^ width) lo

abbrev pub is_srai : Inst → Bool
is_srai Inst.rv32e_srai = true
is_srai _ = false

-- For SRAI the code clears bit 30 of the number.
unfoldable pub get_i_type_immediate : ℕ → Option ℕ
get_i_type_immediate w = do
  inst ← decode_instruction w
  let imm = sra32 (masked 20 12 w) 20
  let imm' = if is_srai inst then bit_and imm (2 ^ 32 - 1 - 2 ^ 30) else imm
  some (extend 0xFFFFF000 w imm')

unfoldable pub get_s_type_immediate : ℕ → ℕ
get_s_type_immediate w =
    extend 0xFFFFF000 w (bit_or (sra32 (masked 25 7 w) 20) (masked 7 5 w / 2 ^ 7))

unfoldable pub get_b_type_immediate : ℕ → ℕ
get_b_type_immediate w = extend 0xFFFFE000 w (
    bit_or
      (bit_or (bit_or (sra32 (masked 31 1 w) 19) (masked 7 1 w * 2 ^ 4)) (masked 25 6 w / 2 ^ 20))
      (masked 8 4 w / 2 ^ 7))

unfoldable pub get_u_type_immediate : ℕ → ℕ
get_u_type_immediate w = masked 12 20 w

unfoldable pub get_j_type_immediate : ℕ → ℕ
get_j_type_immediate w = extend 0xFFE00000 w (
    bit_or (bit_or (bit_or (sra32 (masked 31 1 w) 11) (masked 12 8 w)) (masked 20 1 w / 2 ^ 9))
      (masked 21 10 w / 2 ^ 20))

-- A six-bit immediate, and the same with its top bit copied upwards.
abbrev pub six_bits : ℕ → ℕ
six_bits w = join 5 (field 12 1 w) (field 2 5 w)

abbrev pub signed_six_bits : ℕ → ℕ
signed_six_bits w = if field 12 1 w == 0 then six_bits w else bit_or (six_bits w) 0xFFFFFFC0

unfoldable pub lwsp_immediate : ℕ → ℕ
lwsp_immediate w = join 3 (join 1 (field 2 2 w) (field 12 1 w)) (field 4 3 w) * 2 ^ 2

unfoldable pub addi16sp_immediate : ℕ → ℕ
addi16sp_immediate w =
    let imm =
      join 1 (join 1 (join 1 (join 2 (field 12 1 w) (field 3 2 w)) (field 5 1 w)) (field 2 1 w))
        (field 6 1 w)
      * 2 ^ 4 in
    if field 12 1 w == 0 then imm else bit_or imm 0xFFFFFC00

unfoldable pub ci_immediate : Inst → ℕ → ℕ
ci_immediate Inst.c_slli w = six_bits w
ci_immediate Inst.c_nop w = signed_six_bits w
ci_immediate Inst.c_addi w = signed_six_bits w
ci_immediate Inst.c_li w = signed_six_bits w
ci_immediate Inst.c_lui w = signed_six_bits w
ci_immediate Inst.c_lwsp w = lwsp_immediate w
ci_immediate Inst.c_addi16sp w = addi16sp_immediate w
ci_immediate _ w = 0

unfoldable pub get_ci_immediate : ℕ → Option ℕ
get_ci_immediate w = do inst ← decode_instruction w; some (ci_immediate inst w)

unfoldable pub css_immediate : Inst → ℕ → ℕ
css_immediate Inst.c_swsp w = join 4 (field 7 2 w) (field 9 4 w) * 2 ^ 2
css_immediate _ w = 0

unfoldable pub get_css_immediate : ℕ → Option ℕ
get_css_immediate w = do inst ← decode_instruction w; some (css_immediate inst w)

unfoldable pub ciw_immediate : Inst → ℕ → ℕ
ciw_immediate Inst.c_addi4spn w =
    join 1 (join 1 (join 4 (field 7 4 w) (field 11 2 w)) (field 5 1 w)) (field 6 1 w) * 2 ^ 2
ciw_immediate _ w = 0

unfoldable pub get_ciw_immediate : ℕ → Option ℕ
get_ciw_immediate w = do inst ← decode_instruction w; some (ciw_immediate inst w)

abbrev pub word_offset : ℕ → ℕ
word_offset w = join 1 (join 3 (field 5 1 w) (field 10 3 w)) (field 6 1 w) * 2 ^ 2

unfoldable pub cl_immediate : Inst → ℕ → ℕ
cl_immediate Inst.c_lw w = word_offset w
cl_immediate _ w = 0

unfoldable pub get_cl_immediate : ℕ → Option ℕ
get_cl_immediate w = do inst ← decode_instruction w; some (cl_immediate inst w)

unfoldable pub cs_immediate : Inst → ℕ → ℕ
cs_immediate Inst.c_sw w = word_offset w
cs_immediate _ w = 0

unfoldable pub get_cs_immediate : ℕ → Option ℕ
get_cs_immediate w = do inst ← decode_instruction w; some (cs_immediate inst w)

unfoldable pub branch_offset : ℕ → ℕ
branch_offset w =
    let imm =
      join 2 (join 2 (join 1 (join 2 (field 12 1 w) (field 5 2 w)) (field 2 1 w)) (field 10 2 w))
        (field 3 2 w)
      * 2 ^ 1 in
    if field 12 1 w == 0 then imm else bit_or imm 0xFFFFFE00

unfoldable pub cb_immediate : Inst → ℕ → ℕ
cb_immediate Inst.c_beqz w = branch_offset w
cb_immediate Inst.c_bnez w = branch_offset w
cb_immediate Inst.c_srli w = six_bits w
cb_immediate Inst.c_srli64 w = six_bits w
cb_immediate Inst.c_srai w = six_bits w
cb_immediate Inst.c_srai64 w = six_bits w
cb_immediate Inst.c_andi w = signed_six_bits w
cb_immediate _ w = 0

unfoldable pub get_cb_immediate : ℕ → Option ℕ
get_cb_immediate w = do inst ← decode_instruction w; some (cb_immediate inst w)

unfoldable pub jump_target : ℕ → ℕ
jump_target w =
    let high = join 1 (join 2 (join 1 (field 12 1 w) (field 8 1 w)) (field 9 2 w)) (field 6 1 w) in
    let imm =
      join 3 (join 1 (join 1 (join 1 high (field 7 1 w)) (field 2 1 w)) (field 11 1 w))
        (field 3 3 w)
      * 2 ^ 1 in
    if field 12 1 w == 0 then imm else bit_or imm 0xFFFFF000

unfoldable pub cj_immediate : Inst → ℕ → ℕ
cj_immediate Inst.c_jal w = jump_target w
cj_immediate Inst.c_j w = jump_target w
cj_immediate _ w = 0

unfoldable pub get_cj_immediate : ℕ → Option ℕ
get_cj_immediate w = do inst ← decode_instruction w; some (cj_immediate inst w)
