-- ===== src/Rv32/Kinds.antt =====
-- The types that `decodeInstructionType` of sw/ELE749_projet1-develop/src/decoder.c gives, beside
-- the instructions that `decodeInstruction` gives.
use rv.Common.{
  ◌==◌, if◌then◌else◌, ℕ, ◌<◌, ◌≡◌, refl, subst, ap, Bool, true, false, Option, none, some,
  some-injective, arith,
}
use rv.Int.{ℤ}
use rv.Rv32.Formats.{type_or_bad, is_bad}
use rv.Rv32.Codes.{
  Inst, InstSet, rv32e_r_type, rv32e_i_type, rv32e_s_type, rv32e_b_type, field, rv32e_op,
  rv32e_op_imm, rv32e_op_branch, rv32e_op_lui, rv32e_op_auipc, rv32e_op_jal, rv32e_op_jalr,
  rv32e_op_load, rv32e_op_store, rv32e_op_mem, rv32e_op_os,
}
use rv.Rv32.Types.{
  decode_instruction_length, base_type, quadrant_0_type, quadrant_1_type, quadrant_2_type,
  decode_instruction_type,
}
use rv.Rv32.Decode.{
  decode_op, decode_op_imm, decode_branch, decode_load, decode_store, decode_base,
  decode_quadrant_0, decode_quadrant_1, decode_quadrant_2, decode_instruction,
}

-- An instruction that is not an error has the type `t`, or C.FSD that of an error.
abbrev Has : Inst → ℤ → Type 0
Has i t = is_bad i ≡ false → t ≡ type_or_bad i

Has-if : (t : Bool) (a b : Inst) {c : ℤ} → Has a c → Has b c → Has (if t then a else b) c
Has-if true a b h g = h
Has-if false a b h g = g

decode_op-Has : (f3 f7 : ℕ) → Has (decode_op f3 f7) rv32e_r_type
unfolding decode_op
decode_op-Has f3 f7 = ground arith

decode_op_imm-Has : (f3 f7 : ℕ) → Has (decode_op_imm f3 f7) rv32e_i_type
unfolding decode_op_imm
decode_op_imm-Has f3 f7 = ground arith

decode_branch-Has : (f3 : ℕ) → Has (decode_branch f3) rv32e_b_type
unfolding decode_branch
decode_branch-Has f3 = ground arith

decode_load-Has : (f3 : ℕ) → Has (decode_load f3) rv32e_i_type
unfolding decode_load
decode_load-Has f3 = ground arith

decode_store-Has : (f3 : ℕ) → Has (decode_store f3) rv32e_s_type
unfolding decode_store
decode_store-Has f3 = ground arith

-- The same of a result that may be undefined.
abbrev Agrees : Option Inst → ℤ → Type 0
Agrees r t = (inst : Inst) → r ≡ some inst → Has inst t

Agrees-some : (i : Inst) {t : ℤ} → Has i t → Agrees (some i) t
Agrees-some i {t} h inst e = subst (λ k. Has k t) (some-injective _ _ e) h

Agrees-none : {t : ℤ} → Agrees none t
Agrees-none inst e good = cc

Agrees-if :
    (t : Bool) {a b : Option Inst} {c d : ℤ}
    → Agrees a c
    → Agrees b d
    → Agrees (if t then a else b) (if t then c else d)
Agrees-if true h g = h
Agrees-if false h g = g

decode_base-Agrees : (opcode f3 f7 os : ℕ) → Agrees (decode_base opcode f3 f7 os) (base_type opcode)
unfolding decode_base base_type
decode_base-Agrees opcode f3 f7 os =
    Agrees-if (opcode == rv32e_op) (Agrees-some _ (decode_op-Has f3 f7)) (
      Agrees-if (opcode == rv32e_op_imm) (Agrees-some _ (decode_op_imm-Has f3 f7)) (
        Agrees-if (opcode == rv32e_op_branch) (Agrees-some _ (decode_branch-Has f3)) (
          Agrees-if (opcode == rv32e_op_lui) (Agrees-some Inst.rv32e_lui (λ _. refl)) (
            Agrees-if (opcode == rv32e_op_auipc) (Agrees-some Inst.rv32e_auipc (λ _. refl)) (
              Agrees-if (opcode == rv32e_op_jal) (Agrees-some Inst.rv32e_jal (λ _. refl)) (
                Agrees-if (opcode == rv32e_op_jalr) (Agrees-some Inst.rv32e_jalr (λ _. refl)) (
                  Agrees-if (opcode == rv32e_op_load) (Agrees-some _ (decode_load-Has f3)) (
                    Agrees-if (opcode == rv32e_op_store) (Agrees-some _ (decode_store-Has f3)) (
                      Agrees-if (opcode == rv32e_op_mem) Agrees-none (
                        Agrees-if (opcode == rv32e_op_os)
                          (Agrees-some _ (
                            Has-if (os == 1) Inst.rv32e_ebreak Inst.rv32e_ecall (λ _. refl)
                              (λ _. refl)))
                          (Agrees-some Inst.rv32e_bad_instruction (λ e. cc))))))))))))

decode_quadrant_0-Agrees : (f3 : ℕ) → Agrees (decode_quadrant_0 f3) (quadrant_0_type f3)
unfolding decode_quadrant_0 quadrant_0_type
decode_quadrant_0-Agrees f3 inst = ground arith

decode_quadrant_1-Agrees :
    (f3 low bits bits' : ℕ)
    → bits < 4
    → Agrees (decode_quadrant_1 f3 low bits bits') (quadrant_1_type f3 bits)
unfolding decode_quadrant_1 quadrant_1_type
decode_quadrant_1-Agrees f3 low bits bits' h inst = ground arith

decode_quadrant_2-Agrees :
    (f3 bit12 rd rs2 : ℕ) → Agrees (decode_quadrant_2 f3 bit12 rd rs2) (quadrant_2_type f3)
unfolding decode_quadrant_2 quadrant_2_type
decode_quadrant_2-Agrees f3 bit12 rd rs2 inst = ground arith

-- The same of a type that may be undefined.
abbrev Fits : Option Inst → Option ℤ → Type 0
Fits r s = (inst : Inst) → r ≡ some inst → is_bad inst ≡ false → s ≡ some (type_or_bad inst)

Fits-some : {r : Option Inst} {t : ℤ} → Agrees r t → Fits r (some t)
Fits-some a inst d good = ap some (a inst d good)

Fits-none : Fits none none
Fits-none inst d good = cc

Fits-if :
    (t : Bool) {a b : Option Inst} {c d : Option ℤ}
    → Fits a c
    → Fits b d
    → Fits (if t then a else b) (if t then c else d)
Fits-if true h g = h
Fits-if false h g = g

Fits-by_length :
    (l : InstSet) {a b : Option Inst} {c d : Option ℤ}
    → Fits a c
    → Fits b d
    → Fits
        (elim l [ InstSet.rv32e ↦ a | InstSet.rvc ↦ b ])
        (elim l [ InstSet.rv32e ↦ c | InstSet.rvc ↦ d ])
Fits-by_length InstSet.rv32e h g = h
Fits-by_length InstSet.rvc h g = g

pub decode_instruction-type :
    (w : ℕ) (inst : Inst)
    → decode_instruction w ≡ some inst
    → is_bad inst ≡ false
    → decode_instruction_type w ≡ some (type_or_bad inst)
unfolding decode_instruction decode_instruction_type
decode_instruction-type w =
    let f3 = field 13 3 w in
    Fits-by_length (decode_instruction_length w)
      (Fits-some (decode_base-Agrees (field 0 7 w) (field 12 3 w) (field 25 6 w) (field 20 1 w)))
      (Fits-if (field 0 2 w == 0) (Fits-some (decode_quadrant_0-Agrees f3)) (
        Fits-if (field 0 2 w == 1)
          (Fits-some
            (decode_quadrant_1-Agrees f3 (field 0 5 w) (field 10 2 w) (field 5 2 w) (omega arith)))
          (Fits-if (field 0 2 w == 2)
            (Fits-some (decode_quadrant_2-Agrees f3 (field 12 1 w) (field 7 5 w) (field 2 5 w)))
            Fits-none)))
