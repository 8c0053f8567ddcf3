-- ===== src/Disassembler/Bounds.antt =====
-- The texts of sw/ELE749_projet1-develop/src/desassembly.c fit their buffer of 40 bytes.
use rv.Common.{
  if◌then◌else◌, ◌>>=◌, length, ℕ, ◌+◌, ◌/◌, ◌^◌, ◌≤◌, ◌≡◌, refl, subst, Bool, true, false, not,
  Option, none, some, some-injective, List, arith, Yields, Yields-bind, Yields-some,
}
use rv.Word.{u32}
use rv.Rv32.Codes.{
  InstSet, rv32e_r_type, rv32e_i_type, rv32e_s_type, rv32e_b_type, rv32e_u_type, rv32e_j_type,
  rv32e_misc_type, rv32c_cr_type, rv32c_ci_type, rv32c_css_type, rv32c_ciw_type, rv32c_cl_type,
  rv32c_cs_type, rv32c_ca_type, rv32c_cb_type, rv32c_cj_type, same_int, field,
}
use rv.Rv32.Types.{decode_instruction_length, decode_instruction_type}
use rv.Rv32.Decode.{decode_instruction}
use rv.Rv32.Immediate.{
  get_i_type_immediate, get_s_type_immediate, get_b_type_immediate, get_u_type_immediate,
  get_j_type_immediate,
}
use rv.Disassembler.{build_inst_string_rv32e, build_inst_string_rv32ec, build_inst_string}
use rv.Disassembler.Names.{r_name, i_name, s_name, b_name, u_name, j_name, misc_name}
use rv.Disassembler.Base.{
  build_inst_string_r_type, build_inst_string_i_type, build_inst_string_s_type,
  build_inst_string_b_type, build_inst_string_u_type, build_inst_string_j_type,
  build_inst_string_misc_type,
}
use rv.Disassembler.Lengths.{
  r_name-NoLonger, i_name-NoLonger, s_name-NoLonger, b_name-NoLonger, u_name-NoLonger,
  j_name-NoLonger, misc_name-NoLonger,
}
use rv.Disassembler.Pieces.{
  append-NoLonger, register-NoLonger, hex_number-NoLonger, base_register-NoLonger, decimal-NoLonger,
  Fits, fits, named,
}
use rv.Disassembler.Compact.{
  build_inst_string_cr_type-Fits, build_inst_string_ci_type-Fits, build_inst_string_css_type-Fits,
  build_inst_string_ciw_type-Fits, build_inst_string_cl_type-Fits, build_inst_string_cs_type-Fits,
  build_inst_string_ca_type-Fits, build_inst_string_cb_type-Fits, build_inst_string_cj_type-Fits,
}

build_inst_string_r_type-Fits : (w : ℕ) → Yields Fits (build_inst_string_r_type w)
unfolding build_inst_string_r_type
build_inst_string_r_type-Fits w = Yields-bind Fits (decode_instruction w) (λ inst _.
    named 4 (r_name inst) (r_name-NoLonger inst) (λ t short. Yields-some Fits (
      fits 16 (omega arith) (
        append-NoLonger short (
          append-NoLonger (register-NoLonger (field 7 5 w) false (omega arith)) (
            append-NoLonger (register-NoLonger (field 15 5 w) false (omega arith))
              (register-NoLonger (field 20 5 w) false (omega arith))))))))

build_inst_string_i_type-Fits : (w : ℕ) → Yields Fits (build_inst_string_i_type w)
unfolding build_inst_string_i_type
build_inst_string_i_type-Fits w = Yields-bind Fits (decode_instruction w) (λ inst _.
    named 5 (i_name inst) (i_name-NoLonger inst) (λ t short.
      Yields-bind Fits (get_i_type_immediate w) (λ imm _. Yields-some Fits (
        fits 25 (omega arith) (
          append-NoLonger short (
            append-NoLonger (register-NoLonger (field 7 5 w) false (omega arith)) (
              append-NoLonger (register-NoLonger (field 15 5 w) false (omega arith))
                (decimal-NoLonger imm false))))))))

build_inst_string_s_type-Fits : (w : ℕ) → Yields Fits (build_inst_string_s_type w)
unfolding build_inst_string_s_type
build_inst_string_s_type-Fits w = Yields-bind Fits (decode_instruction w) (λ inst _.
    named 2 (s_name inst) (s_name-NoLonger inst) (λ t short. Yields-some Fits (
      fits 22 (omega arith) (
        append-NoLonger short (
          append-NoLonger (register-NoLonger (field 20 5 w) false (omega arith)) (
            append-NoLonger (hex_number-NoLonger (get_s_type_immediate w))
              (base_register-NoLonger (field 15 5 w) false (omega arith))))))))

build_inst_string_b_type-Fits : (w : ℕ) → Yields Fits (build_inst_string_b_type w)
unfolding build_inst_string_b_type
build_inst_string_b_type-Fits w = Yields-bind Fits (decode_instruction w) (λ inst _.
    named 4 (b_name inst) (b_name-NoLonger inst) (λ t short. Yields-some Fits (
      fits 24 (omega arith) (
        append-NoLonger short (
          append-NoLonger (register-NoLonger (field 15 5 w) false (omega arith)) (
            append-NoLonger (register-NoLonger (field 20 5 w) false (omega arith))
              (decimal-NoLonger (get_b_type_immediate w) false)))))))

build_inst_string_u_type-Fits : (w : ℕ) → Yields Fits (build_inst_string_u_type w)
unfolding build_inst_string_u_type
build_inst_string_u_type-Fits w = Yields-bind Fits (decode_instruction w) (λ inst _.
    named 5 (u_name inst) (u_name-NoLonger inst) (λ t short. Yields-some Fits (
      fits 20 (omega arith) (
        append-NoLonger short (
          append-NoLonger (register-NoLonger (field 7 5 w) false (omega arith))
            (hex_number-NoLonger (get_u_type_immediate w / 2 ^ 12)))))))

build_inst_string_j_type-Fits : (w pc : ℕ) → Yields Fits (build_inst_string_j_type w pc)
unfolding build_inst_string_j_type
build_inst_string_j_type-Fits w pc = Yields-bind Fits (decode_instruction w) (λ inst _.
    named 3 (j_name inst) (j_name-NoLonger inst) (λ t short. Yields-some Fits (
      fits 18 (omega arith) (
        append-NoLonger short (
          append-NoLonger (register-NoLonger (field 7 5 w) false (omega arith))
            (hex_number-NoLonger (u32 (get_j_type_immediate w + pc))))))))

build_inst_string_misc_type-Fits : (w : ℕ) → Yields Fits (build_inst_string_misc_type w)
unfolding build_inst_string_misc_type
build_inst_string_misc_type-Fits w = Yields-bind Fits (decode_instruction w) (λ inst _.
    named 6 (misc_name inst) (misc_name-NoLonger inst)
      (λ t short. Yields-some Fits (fits 6 (omega arith) (short))))

Fits-if :
    (t : Bool) {r s : Option (List ℕ)}
    → Yields Fits r
    → Yields Fits s
    → Yields Fits (if t then r else s)
Fits-if true h g = h
Fits-if false h g = g

build_inst_string_rv32e-Fits : (w pc : ℕ) → Yields Fits (build_inst_string_rv32e w pc)
unfolding build_inst_string_rv32e
build_inst_string_rv32e-Fits w pc = Yields-bind Fits (decode_instruction_type w) (λ type _.
    Fits-if (same_int type rv32e_r_type) (build_inst_string_r_type-Fits w) (
      Fits-if (same_int type rv32e_i_type) (build_inst_string_i_type-Fits w) (
        Fits-if (same_int type rv32e_s_type) (build_inst_string_s_type-Fits w) (
          Fits-if (same_int type rv32e_b_type) (build_inst_string_b_type-Fits w) (
            Fits-if (same_int type rv32e_u_type) (build_inst_string_u_type-Fits w) (
              Fits-if (same_int type rv32e_j_type) (build_inst_string_j_type-Fits w pc) (
                Fits-if (same_int type rv32e_misc_type) (build_inst_string_misc_type-Fits w)
                  (Yields-some Fits (record { bound = omega arith })))))))))

build_inst_string_rv32ec-Fits : (w pc : ℕ) → Yields Fits (build_inst_string_rv32ec w pc)
unfolding build_inst_string_rv32ec
build_inst_string_rv32ec-Fits w pc = Yields-bind Fits (decode_instruction_type w) (λ type _.
    Fits-if (same_int type rv32c_cr_type) (build_inst_string_cr_type-Fits w) (
      Fits-if (same_int type rv32c_ci_type) (build_inst_string_ci_type-Fits w) (
        Fits-if (same_int type rv32c_css_type) (build_inst_string_css_type-Fits w) (
          Fits-if (same_int type rv32c_ciw_type) (build_inst_string_ciw_type-Fits w) (
            Fits-if (same_int type rv32c_cl_type) (build_inst_string_cl_type-Fits w) (
              Fits-if (same_int type rv32c_cs_type) (build_inst_string_cs_type-Fits w) (
                Fits-if (same_int type rv32c_ca_type) (build_inst_string_ca_type-Fits w) (
                  Fits-if (same_int type rv32c_cb_type) (build_inst_string_cb_type-Fits w) (
                    Fits-if (same_int type rv32c_cj_type) (build_inst_string_cj_type-Fits w pc)
                      (Yields-some Fits (record { bound = omega arith })))))))))))

-- The text that `buildInstString` makes of any word at any counter, where it is defined, has at
-- most 28 bytes, so it fits the 40 bytes of CHAR_NB_BY_INST with its terminator.
pub build_inst_string-NoLonger :
    (malloc : Bool) (w pc : ℕ) (text : List ℕ)
    → build_inst_string malloc w pc ≡ some (some text)
    → length text ≤ 28
unfolding build_inst_string
build_inst_string-NoLonger malloc w pc text e = by_length malloc (decode_instruction_length w) e
  where
    by_text :
        (r : Option (List ℕ))
        → Yields Fits r
        → (r >>= λ t. some (some t)) ≡ some (some text)
        → length text ≤ 28
    by_text none s h = absurd (cc)
    by_text (some t) s h =
        subst (λ (u : List ℕ). length u ≤ 28) (some-injective _ _ (some-injective _ _ h))
          (s t refl).bound

    by_length :
        (m : Bool) (l : InstSet)
        → (if not m then some none else elim l [
          | InstSet.rv32e ↦ do t ← build_inst_string_rv32e w pc; some (some t)
          | InstSet.rvc ↦ do t ← build_inst_string_rv32ec w pc; some (some t)
        ])
          ≡ some (some text)
        → length text ≤ 28
    by_length false l h = absurd (cc)
    by_length true InstSet.rv32e h =
        by_text (build_inst_string_rv32e w pc) (build_inst_string_rv32e-Fits w pc) h
    by_length true InstSet.rvc h =
        by_text (build_inst_string_rv32ec w pc) (build_inst_string_rv32ec-Fits w pc) h
