-- ===== src/Rv32/Straight.antt =====
-- Runs of straight-line programs, for `simulatorRun` of
-- sw/ELE749_projet1-develop/src/simulator.c: instructions with an immediate, and ECALL at the end.
use rv.Common.{
  ltb, leb, if◌then◌else◌, ◌>>=◌, >>=-eq-some, store, ℕ, ◌^◌, ◌<◌, ◌≡◌, refl, sym, subst, ap, ◌∙◌,
  Bool, true, false, ◌||◌, Option, some, some-injective, List, [], ◌∷◌, arith,
}
use rv.Proc.{proc_regsize, ProcState, proc_write_reg, proc_read_reg}
use rv.Alu.{f10_add, f10_sll, f10_slt, f10_xor, f10_srl, f10_or, f10_and, from_bool, alu_exec}
use rv.Proc.Invariant.{IsValid}
use rv.Proc.Registers.{proc_read_reg-write_reg}
use rv.Rv32.Codes.{Inst, field, rv32e_op_imm}
use rv.Rv32.Immediate.{is_srai}
use rv.Rv32.Data.{IType, put, move, abs_int}
use rv.Rv32.Base.{set_less_than_immediate_unsigned}
use rv.Rv32.Simulator.{sets_pc}
use rv.Rv32.Unit.{of_immediate}
use rv.Rv32.Encoding.{Encodes}
use rv.Rv32.Run.{immediate_of}
use rv.Rv32.Effect.{immediate_effect}

-- An instruction of a program: what it is, and its word.
pub record Line : Type 0 where
  pub inst : Inst
  pub word : ℕ
  pub encodes : Encodes word inst
  pub small : word < 2 ^ 32
  pub with_immediate : field 0 7 word ≡ rv32e_op_imm
  pub no_srai : is_srai inst ≡ false

-- What the program means: the effects of its lines in order, and the counter behind each.
abbrev pub meaning : List Line → ProcState → Option ProcState
meaning [] p = some p
meaning (l ∷ ls) p = do q ← immediate_effect l.inst (immediate_of l.word) p; meaning ls (move 4 q)

abbrev pub words : List Line → List ℕ
words [] = 0x73 ∷ []
words (l ∷ ls) = l.word ∷ words ls

-- The registers alone change.
abbrev pub Kept : ProcState → List ℕ → Option ProcState → Type 0
Kept p b r = (q : ProcState) → r ≡ some q → IsValid q b × (q.pc ≡ p.pc)

proc_write_reg-pc :
    (reg val : ℕ) (p : ProcState) (w : ℕ × ProcState)
    → proc_write_reg reg val p ≡ some w
    → w.1.pc ≡ p.pc
unfolding proc_write_reg
proc_write_reg-pc reg val p w e = by_test (leb reg 0 || leb proc_regsize reg) e
  where
    by_test :
        (t : Bool)
        → (if t then some (0, p) else (store p.x reg val >>= λ x. some (val, record p { x = x })))
          ≡ some w
        → w.1.pc ≡ p.pc
    by_test true e = ap (λ (w : ℕ × ProcState). w.1.pc) (sym (some-injective _ _ e))
    by_test false e =
        let (x, _, e') = >>=-eq-some (store p.x reg val) _ e in
        ap (λ (w : ℕ × ProcState). w.1.pc) (sym (some-injective _ _ e'))

put-Kept : (rd val : ℕ) {p : ProcState} {b : List ℕ} → IsValid p b → Kept p b (put rd val p)
put-Kept rd val {p} {b} v q e =
    let (p', writes, _, kept) = proc_read_reg-write_reg rd val v in
    let (w, writes', same) = >>=-eq-some (proc_write_reg rd val p) _ e in
    let here : w.1 ≡ q = some-injective _ _ same in
    let there : p' ≡ w.1 =
      ap (λ (w : ℕ × ProcState). w.1) (some-injective _ _ (sym writes ∙ writes')) in
    (
      subst (λ q. IsValid q b) (there ∙ here) kept,
      ap (λ (q : ProcState). q.pc) (sym here) ∙ proc_write_reg-pc rd val p w writes',
    )

of_immediate-Kept :
    (f10 : ℕ) (d : IType) {p : ProcState} {b : List ℕ}
    → IsValid p b
    → Kept p b (of_immediate f10 d p)
of_immediate-Kept f10 d {p} v q e =
    let (a, _, e₁) = >>=-eq-some (proc_read_reg d.rs1 p) _ e in
    let (val, _, e₂) = >>=-eq-some (alu_exec f10 a d.imm) _ e₁ in put-Kept d.rd val v q e₂

sltiu-Kept :
    (d : IType) {p : ProcState} {b : List ℕ}
    → IsValid p b
    → Kept p b (set_less_than_immediate_unsigned d p)
unfolding set_less_than_immediate_unsigned
sltiu-Kept d {p} v q e =
    let (a, _, e₁) = >>=-eq-some (proc_read_reg d.rs1 p) _ e in
    let (a', _, e₂) = >>=-eq-some (abs_int a) _ e₁ in
    let (b', _, e₃) = >>=-eq-some (abs_int d.imm) _ e₂ in
    put-Kept d.rd (from_bool (ltb a' b')) v q e₃

pub immediate_effect-Kept :
    {w : ℕ} {inst : Inst} (d : IType) {p : ProcState} {b : List ℕ}
    → Encodes w inst
    → IsValid p b
    → Kept p b (immediate_effect inst d p)
immediate_effect-Kept d (Encodes.lui_word _) v = λ q e. cc
immediate_effect-Kept d (Encodes.auipc_word _) v = λ q e. cc
immediate_effect-Kept d (Encodes.jal_word _) v = λ q e. cc
immediate_effect-Kept d (Encodes.jalr_word _ _) v = λ q e. cc
immediate_effect-Kept d (Encodes.beq_word _ _) v = λ q e. cc
immediate_effect-Kept d (Encodes.bne_word _ _) v = λ q e. cc
immediate_effect-Kept d (Encodes.blt_word _ _) v = λ q e. cc
immediate_effect-Kept d (Encodes.bge_word _ _) v = λ q e. cc
immediate_effect-Kept d (Encodes.bltu_word _ _) v = λ q e. cc
immediate_effect-Kept d (Encodes.bgeu_word _ _) v = λ q e. cc
immediate_effect-Kept d (Encodes.lb_word _ _) v = λ q e. cc
immediate_effect-Kept d (Encodes.lh_word _ _) v = λ q e. cc
immediate_effect-Kept d (Encodes.lw_word _ _) v = λ q e. cc
immediate_effect-Kept d (Encodes.lbu_word _ _) v = λ q e. cc
immediate_effect-Kept d (Encodes.lhu_word _ _) v = λ q e. cc
immediate_effect-Kept d (Encodes.sb_word _ _) v = λ q e. cc
immediate_effect-Kept d (Encodes.sh_word _ _) v = λ q e. cc
immediate_effect-Kept d (Encodes.sw_word _ _) v = λ q e. cc
immediate_effect-Kept d (Encodes.addi_word _ _) v = of_immediate-Kept f10_add d v
immediate_effect-Kept d (Encodes.slti_word _ _) v = of_immediate-Kept f10_slt d v
immediate_effect-Kept d (Encodes.sltiu_word _ _) v = sltiu-Kept d v
immediate_effect-Kept d (Encodes.xori_word _ _) v = of_immediate-Kept f10_xor d v
immediate_effect-Kept d (Encodes.ori_word _ _) v = of_immediate-Kept f10_or d v
immediate_effect-Kept d (Encodes.andi_word _ _) v = of_immediate-Kept f10_and d v
immediate_effect-Kept d (Encodes.ecall_word _ _) v = λ q e. cc
immediate_effect-Kept d (Encodes.ebreak_word _ _) v = λ q e. cc
immediate_effect-Kept d (Encodes.slli_word _ _ _) v = of_immediate-Kept f10_sll d v
immediate_effect-Kept d (Encodes.srli_word _ _ _) v = of_immediate-Kept f10_srl d v
immediate_effect-Kept d (Encodes.srai_word _ _ _) v = λ q e. cc
immediate_effect-Kept d (Encodes.add_word _ _ _) v = λ q e. cc
immediate_effect-Kept d (Encodes.sub_word _ _ _) v = λ q e. cc
immediate_effect-Kept d (Encodes.sll_word _ _ _) v = λ q e. cc
immediate_effect-Kept d (Encodes.slt_word _ _ _) v = λ q e. cc
immediate_effect-Kept d (Encodes.sltu_word _ _ _) v = λ q e. cc
immediate_effect-Kept d (Encodes.xor_word _ _ _) v = λ q e. cc
immediate_effect-Kept d (Encodes.srl_word _ _ _) v = λ q e. cc
immediate_effect-Kept d (Encodes.sra_word _ _ _) v = λ q e. cc
immediate_effect-Kept d (Encodes.or_word _ _ _) v = λ q e. cc
immediate_effect-Kept d (Encodes.and_word _ _ _) v = λ q e. cc

-- An instruction with an immediate leaves the counter to `updatePC`.
pub immediate-sets_pc :
    {w : ℕ} {inst : Inst} → Encodes w inst → field 0 7 w ≡ rv32e_op_imm → sets_pc inst ≡ false
immediate-sets_pc (Encodes.lui_word a) h = refl
immediate-sets_pc (Encodes.auipc_word a) h = refl
immediate-sets_pc (Encodes.jal_word a) h = refl
immediate-sets_pc (Encodes.jalr_word a _) h = absurd (omega arith)
immediate-sets_pc (Encodes.beq_word a _) h = refl
immediate-sets_pc (Encodes.bne_word a _) h = refl
immediate-sets_pc (Encodes.blt_word a _) h = refl
immediate-sets_pc (Encodes.bge_word a _) h = refl
immediate-sets_pc (Encodes.bltu_word a _) h = refl
immediate-sets_pc (Encodes.bgeu_word a _) h = refl
immediate-sets_pc (Encodes.lb_word a _) h = refl
immediate-sets_pc (Encodes.lh_word a _) h = refl
immediate-sets_pc (Encodes.lw_word a _) h = refl
immediate-sets_pc (Encodes.lbu_word a _) h = refl
immediate-sets_pc (Encodes.lhu_word a _) h = refl
immediate-sets_pc (Encodes.sb_word a _) h = refl
immediate-sets_pc (Encodes.sh_word a _) h = refl
immediate-sets_pc (Encodes.sw_word a _) h = refl
immediate-sets_pc (Encodes.addi_word a _) h = refl
immediate-sets_pc (Encodes.slti_word a _) h = refl
immediate-sets_pc (Encodes.sltiu_word a _) h = refl
immediate-sets_pc (Encodes.xori_word a _) h = refl
immediate-sets_pc (Encodes.ori_word a _) h = refl
immediate-sets_pc (Encodes.andi_word a _) h = refl
immediate-sets_pc (Encodes.ecall_word a _) h = absurd (omega arith)
immediate-sets_pc (Encodes.ebreak_word a _) h = refl
immediate-sets_pc (Encodes.slli_word a _ _) h = refl
immediate-sets_pc (Encodes.srli_word a _ _) h = refl
immediate-sets_pc (Encodes.srai_word a _ _) h = refl
immediate-sets_pc (Encodes.add_word a _ _) h = refl
immediate-sets_pc (Encodes.sub_word a _ _) h = refl
immediate-sets_pc (Encodes.sll_word a _ _) h = refl
immediate-sets_pc (Encodes.slt_word a _ _) h = refl
immediate-sets_pc (Encodes.sltu_word a _ _) h = refl
immediate-sets_pc (Encodes.xor_word a _ _) h = refl
immediate-sets_pc (Encodes.srl_word a _ _) h = refl
immediate-sets_pc (Encodes.sra_word a _ _) h = refl
immediate-sets_pc (Encodes.or_word a _ _) h = refl
immediate-sets_pc (Encodes.and_word a _ _) h = refl
