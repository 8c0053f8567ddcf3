-- ===== src/Disassembler/Compact.antt =====
-- The texts of the compressed formats of sw/ELE749_projet1-develop/src/desassembly.c.
use rv.Common.{
  if◌then◌else◌, ℕ, ◌+◌, ◌<◌, Bool, true, false, [], arith, Yields, Yields-bind, Yields-some,
}
use rv.Word.{u32}
use rv.Rv32.Codes.{field}
use rv.Rv32.Decode.{decode_instruction}
use rv.Rv32.Immediate.{
  get_ci_immediate, get_css_immediate, get_ciw_immediate, get_cl_immediate, get_cs_immediate,
  get_cb_immediate, get_cj_immediate,
}
use rv.Rv32.Compressed.{rp_shift}
use rv.Disassembler.Names.{
  cr_name, ci_name, css_name, ciw_name, cl_name, cs_name, ca_name, cb_name, cj_name,
}
use rv.Disassembler.Digits.{register}
use rv.Disassembler.Compressed.{
  has_rs1, has_rs2, sign_immediate, build_inst_string_cr_type, build_inst_string_ci_type,
  build_inst_string_css_type, build_inst_string_ciw_type, build_inst_string_cl_type,
  build_inst_string_cs_type, build_inst_string_ca_type, build_inst_string_cb_type,
  build_inst_string_cj_type,
}
use rv.Disassembler.Lengths.{
  NoLonger, cr_name-NoLonger, ci_name-NoLonger, css_name-NoLonger, ciw_name-NoLonger,
  cl_name-NoLonger, cs_name-NoLonger, ca_name-NoLonger, cb_name-NoLonger, cj_name-NoLonger,
}
use rv.Disassembler.Pieces.{
  append-NoLonger, register-NoLonger, hex_number-NoLonger, base_register-NoLonger, decimal-NoLonger,
  stack_base-NoLonger, stack_hex-NoLonger, Fits, fits, named,
}

operand-NoLonger : (t : Bool) (n : ℕ) → n < 100 → NoLonger 4 (if t then register n true else [])
operand-NoLonger true n h = register-NoLonger n true h
operand-NoLonger false n h = record { bound = omega arith }

pub build_inst_string_cr_type-Fits : (w : ℕ) → Yields Fits (build_inst_string_cr_type w)
unfolding build_inst_string_cr_type
build_inst_string_cr_type-Fits w = Yields-bind Fits (decode_instruction w) (λ inst _.
    named 8 (cr_name inst) (cr_name-NoLonger inst) (λ t short. Yields-some Fits (
      fits 16 (omega arith) (
        append-NoLonger short (
          append-NoLonger (operand-NoLonger (has_rs1 inst) (field 7 5 w) (omega arith))
            (operand-NoLonger (has_rs2 inst) (field 2 5 w) (omega arith)))))))

pub build_inst_string_ci_type-Fits : (w : ℕ) → Yields Fits (build_inst_string_ci_type w)
unfolding build_inst_string_ci_type
build_inst_string_ci_type-Fits w = Yields-bind Fits (decode_instruction w) (λ inst _.
    named 10 (ci_name inst) (ci_name-NoLonger inst) (λ t short.
      Yields-bind Fits (get_ci_immediate w) (λ imm _. Yields-some Fits (
        fits 26 (omega arith) (
          append-NoLonger short (
            append-NoLonger (register-NoLonger (field 7 5 w) true (omega arith))
              (decimal-NoLonger imm (sign_immediate inst))))))))

pub build_inst_string_css_type-Fits : (w : ℕ) → Yields Fits (build_inst_string_css_type w)
unfolding build_inst_string_css_type
build_inst_string_css_type-Fits w = Yields-bind Fits (decode_instruction w) (λ inst _.
    named 6 (css_name inst) (css_name-NoLonger inst) (λ t short.
      Yields-bind Fits (get_css_immediate w) (λ imm _. Yields-some Fits (
        fits 25 (omega arith) (
          append-NoLonger short (
            append-NoLonger (register-NoLonger (field 2 5 w) true (omega arith))
              (append-NoLonger (hex_number-NoLonger imm) stack_base-NoLonger)))))))

pub build_inst_string_ciw_type-Fits : (w : ℕ) → Yields Fits (build_inst_string_ciw_type w)
unfolding build_inst_string_ciw_type
build_inst_string_ciw_type-Fits w = Yields-bind Fits (decode_instruction w) (λ inst _.
    named 10 (ciw_name inst) (ciw_name-NoLonger inst) (λ t short.
      Yields-bind Fits (get_ciw_immediate w) (λ imm _. Yields-some Fits (
        fits 28 (omega arith) (
          append-NoLonger short (
            append-NoLonger (register-NoLonger (rp_shift (field 2 3 w)) true (omega arith))
              (stack_hex-NoLonger imm)))))))

pub build_inst_string_cl_type-Fits : (w : ℕ) → Yields Fits (build_inst_string_cl_type w)
unfolding build_inst_string_cl_type
build_inst_string_cl_type-Fits w = Yields-bind Fits (decode_instruction w) (λ inst _.
    named 4 (cl_name inst) (cl_name-NoLonger inst) (λ t short.
      Yields-bind Fits (get_cl_immediate w) (λ imm _. Yields-some Fits (
        fits 24 (omega arith) (
          append-NoLonger short (
            append-NoLonger (register-NoLonger (rp_shift (field 2 3 w)) true (omega arith)) (
              append-NoLonger (hex_number-NoLonger imm)
                (base_register-NoLonger (rp_shift (field 7 3 w)) true (omega arith)))))))))

pub build_inst_string_cs_type-Fits : (w : ℕ) → Yields Fits (build_inst_string_cs_type w)
unfolding build_inst_string_cs_type
build_inst_string_cs_type-Fits w = Yields-bind Fits (decode_instruction w) (λ inst _.
    named 4 (cs_name inst) (cs_name-NoLonger inst) (λ t short.
      Yields-bind Fits (get_cs_immediate w) (λ imm _. Yields-some Fits (
        fits 24 (omega arith) (
          append-NoLonger short (
            append-NoLonger (register-NoLonger (rp_shift (field 2 3 w)) true (omega arith)) (
              append-NoLonger (hex_number-NoLonger imm)
                (base_register-NoLonger (rp_shift (field 7 3 w)) true (omega arith)))))))))

pub build_inst_string_ca_type-Fits : (w : ℕ) → Yields Fits (build_inst_string_ca_type w)
unfolding build_inst_string_ca_type
build_inst_string_ca_type-Fits w = Yields-bind Fits (decode_instruction w) (λ inst _.
    named 5 (ca_name inst) (ca_name-NoLonger inst) (λ t short. Yields-some Fits (
      fits 13 (omega arith) (
        append-NoLonger short (
          append-NoLonger (register-NoLonger (rp_shift (field 7 3 w)) true (omega arith))
            (register-NoLonger (rp_shift (field 2 3 w)) true (omega arith)))))))

pub build_inst_string_cb_type-Fits : (w : ℕ) → Yields Fits (build_inst_string_cb_type w)
unfolding build_inst_string_cb_type
build_inst_string_cb_type-Fits w = Yields-bind Fits (decode_instruction w) (λ inst _.
    named 8 (cb_name inst) (cb_name-NoLonger inst) (λ t short.
      Yields-bind Fits (get_cb_immediate w) (λ imm _. Yields-some Fits (
        fits 24 (omega arith) (
          append-NoLonger short (
            append-NoLonger (register-NoLonger (rp_shift (field 7 3 w)) true (omega arith))
              (decimal-NoLonger imm false)))))))

pub build_inst_string_cj_type-Fits : (w pc : ℕ) → Yields Fits (build_inst_string_cj_type w pc)
unfolding build_inst_string_cj_type
build_inst_string_cj_type-Fits w pc = Yields-bind Fits (decode_instruction w) (λ inst _.
    named 5 (cj_name inst) (cj_name-NoLonger inst) (λ t short.
      Yields-bind Fits (get_cj_immediate w) (λ imm _.
        Yields-some Fits
          (fits 16 (omega arith) (append-NoLonger short (hex_number-NoLonger (u32 (imm + pc))))))))
