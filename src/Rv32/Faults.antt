-- ===== src/Rv32/Faults.antt =====
-- Instructions of sw/ELE749_projet1-develop/src that do not what their names say.
use rv.Rv32.Formats.{type_or_bad, is_bad}
use rv.Int.{ℤ}
use rv.Rv32.Codes.{InstSet, Inst, field, masked}
use rv.Rv32.Types.{decode_instruction_length, base_type}
use rv.Common.{
  ◌||◌, Bool, if◌then◌else◌, ltb, leb, ◌>>=◌, ℕ, zero, suc, ◌+◌, ◌-◌, ◌%◌, ◌^◌, ◌<◌, bit_and, ◌≡◌,
  refl, ap, ◌∙◌, true, false, ◌&&◌, Option, none, some, List, arith,
}
use rv.Rv32.Simulator.{type_sets_pc, sets_pc, length_in_bytes, update_pc, simulator_decode}
use rv.Rv32.Machine.{SimulatorState, Machine, Debugger}
use rv.Rv32.Data.{move, RType, IType, put, abs_int, CiwType}
use rv.Rv32.Kinds.{decode_instruction-type}
use rv.Proc.{proc_memsize, ProcState, proc_read_reg, proc_get_pc, proc_set_pc}
use rv.Word.{u32, is_neg, sra32}
use rv.Alu.{from_bool}
use rv.Rv32.Compressed.{c_addi4_stack_pointer, sp, rp_shift}
use rv.Rv32.Decode.{decode_instruction}
use rv.Rv32.Immediate.{get_i_type_immediate}
use rv.Rv32.Base.{shift_right_arith_imm, set_less_than_unsigned, add_immediate}
use rv.Rv32.Transfer.{jump_and_link_register}
use rv.Rv32.Operands.{Operands, rs1_field, rd_field, base_operands}
use rv.Rv32.Execute.{run_op_imm, run_base, run_instruction}
use rv.Rv32.Encoding.{Encodes, decode_instruction-Encodes}
use rv.Rv32.Run.{run_instruction-long}
use rv.Proc.Invariant.{IsValid}
use rv.Proc.Registers.{proc_read_reg-write_reg, writable}

-- A test at every number below `n`.
abbrev all_to : ℕ → (ℕ → Bool) → Bool
all_to zero t = true
all_to (suc n) t = t n && all_to n t

all_to_lem : (n : ℕ) (t : ℕ → Bool) (x : ℕ) → all_to n t ≡ true → x < n → t x ≡ true
all_to_lem zero t x h lt = absurd (omega arith)
all_to_lem (suc n) t x h lt = ground (arith, all_to_lem n t x)

srai_amount : (s : ℕ) → s < 32 → leb 32 (bit_and (1024 + s) (2 ^ 32 - 1 - 2 ^ 30)) ≡ true
srai_amount s h = all_to_lem 32 (λ s. leb 32 (bit_and (1024 + s) (2 ^ 32 - 1 - 2 ^ 30))) s refl h

-- The number of places of a word that encodes SRAI.
srai_immediate :
    (w : ℕ)
    → w < 2 ^ 32
    → Encodes w Inst.rv32e_srai
    → (imm : ℕ) × (get_i_type_immediate w ≡ some imm) × (ltb imm 32 ≡ false)
unfolding get_i_type_immediate
srai_immediate w h (Encodes.srai_word a b c) =
    let s = field 20 5 w in
    let x = sra32 (masked 20 12 w) 20 in
    let plain : x ≡ 1024 + s = ground arith in
    let large = srai_amount s (omega arith) in
    let plus : is_neg w ≡ false = ground arith in
    (
      bit_and (1024 + s) (2 ^ 32 - 1 - 2 ^ 30),
      rw (decode_instruction-Encodes w (Encodes.srai_word a b c), plus, plain) refl,
      ground (arith, large),
    )

bind_none :
    {A B : Type 0} (r : Option A) {f : A → Option B} → ((a : A) → f a ≡ none) → (r >>= f) ≡ none
bind_none none h = refl
bind_none (some a) h = h a

shift_too_far :
    (d : IType) (p : ProcState) → ltb d.imm 32 ≡ false → shift_right_arith_imm d p ≡ none
unfolding shift_right_arith_imm
shift_too_far d p h = bind_none (proc_read_reg d.rs1 p) (λ a. rw h refl)

-- The run of a word that encodes SRAI is undefined, whatever the registers and the amount.
pub run_instruction-srai :
    (little : Bool) (debugger : Debugger) (w : ℕ) (m : Machine)
    → w < 2 ^ 32
    → Encodes w Inst.rv32e_srai
    → run_instruction little debugger w m ≡ none
unfolding run_base base_operands base_type run_op_imm
run_instruction-srai little debugger w m h (Encodes.srai_word a b c) =
    let (imm, gives, large) = srai_immediate w h (Encodes.srai_word a b c) in
    let d : IType = record { imm = imm; rs1 = rs1_field w; rd = rd_field w } in
    let six : field 25 6 w ≡ 32 = omega arith in
    run_instruction-long little debugger w m (Operands.i_data d) (omega arith)
      (decode_instruction-Encodes w (Encodes.srai_word a b c)) (rw (a, gives) refl)
    ∙ rw (a, b, six, shift_too_far d m.proc large) refl

abs_negative : (a : ℕ) → 2 ^ 31 < a → abs_int a ≡ some (2 ^ 32 - a)
abs_negative a h = ground arith

-- SLTU of two registers with the sign bit set, neither of them INT32_MIN, gives the comparison the
-- other way round.
pub set_less_than_unsigned_turned :
    (a b : ℕ) (d : RType) (p : ProcState)
    → proc_read_reg d.rs1 p ≡ some a
    → proc_read_reg d.rs2 p ≡ some b
    → 2 ^ 31 < a
    → a < 2 ^ 32
    → 2 ^ 31 < b
    → b < 2 ^ 32
    → set_less_than_unsigned d p ≡ put d.rd (from_bool (ltb b a)) p
unfolding set_less_than_unsigned
set_less_than_unsigned_turned a b d p e f h h' g g' =
    let turned : ltb (2 ^ 32 - a) (2 ^ 32 - b) ≡ ltb b a = ground arith in
    rw (e, f, abs_negative a h, abs_negative b g, turned) refl

-- JALR with one register, from 1 to 15, for the target and the link jumps on a valid state to the
-- link plus the immediate.
pub jump_and_link_register-link :
    (d : IType) {p : ProcState} {b : List ℕ}
    → IsValid p b
    → writable d.rd ≡ true
    → d.rs1 ≡ d.rd
    → (p' : ProcState) × (jump_and_link_register d p ≡ some p')
      × (p'.pc ≡ u32 (d.imm + (p.pc + 4)) % proc_memsize)
unfolding jump_and_link_register proc_set_pc proc_get_pc
jump_and_link_register-link d {p} {b} v h same =
    let link = u32 (p.pc + 4) in
    let (q, writes, reads, _) = proc_read_reg-write_reg d.rd link v in
    let linked : proc_read_reg d.rs1 q ≡ some link = ground (arith, reads d.rs1) in
    let short : link ≡ p.pc + 4 = omega (arith, v.pc_in) in
    (
      (proc_set_pc (u32 (d.imm + link)) q).1,
      rw (writes, linked) refl,
      ap (λ k. u32 (d.imm + k) % proc_memsize) short,
    )

-- What `simulatorDecode` makes of a word with a given instruction and type.
abbrev decoded_as : ℕ → Inst → ℤ → Machine → Machine
decoded_as w inst type m = record m {
  inst = record {
    inst = elim (decode_instruction_length w) [ InstSet.rvc ↦ w % 2 ^ 16 | InstSet.rv32e ↦ w ];
    decoded_inst = inst;
    inst_type = type;
    inst_ext = decode_instruction_length w;
  };
}

decodes_as :
    (w : ℕ) (inst : Inst) (m : Machine)
    → decode_instruction w ≡ some inst
    → is_bad inst ≡ false
    → simulator_decode w m ≡ some (decoded_as w inst (type_or_bad inst) m)
unfolding simulator_decode
decodes_as w inst m e good = rw (e, decode_instruction-type w inst e good) refl

-- The instructions that set the counter themselves, and ECALL, which ends the program.
abbrev pub is_transfer : Inst → Bool
is_transfer Inst.rv32e_jal = true
is_transfer Inst.rv32e_jalr = true
is_transfer Inst.rv32e_beq = true
is_transfer Inst.rv32e_bne = true
is_transfer Inst.rv32e_blt = true
is_transfer Inst.rv32e_bge = true
is_transfer Inst.rv32e_bltu = true
is_transfer Inst.rv32e_bgeu = true
is_transfer Inst.rv32e_ecall = true
is_transfer Inst.c_jal = true
is_transfer Inst.c_j = true
is_transfer Inst.c_jr = true
is_transfer Inst.c_jalr = true
is_transfer Inst.c_beqz = true
is_transfer Inst.c_bnez = true
is_transfer _ = false

-- The instructions of type CS and CIW.
abbrev pub is_stuck : Inst → Bool
is_stuck Inst.c_sw = true
is_stuck Inst.c_addi4spn = true
is_stuck _ = false

abbrev pub stays : Inst → Bool
stays inst = is_transfer inst || is_stuck inst

stays_lem : (inst : Inst) → (type_sets_pc (type_or_bad inst) || sets_pc inst) ≡ stays inst
stays_lem Inst.c_sw = refl
stays_lem _ = refl

-- In a running simulator, for a word that decodes to an instruction that is not an error,
-- `simulatorDecode` succeeds without a change of the processor, and then `updatePC` leaves the
-- counter if the instruction is a jump, a branch, ECALL, C.SW or C.ADDI4SPN, and moves it by the
-- length of the instruction in every other case.
pub update_pc-stays :
    (w : ℕ) (inst : Inst) (m : Machine)
    → decode_instruction w ≡ some inst
    → is_bad inst ≡ false
    → m.state ≡ SimulatorState.simulator_run_state
    → (m' : Machine) × (simulator_decode w m ≡ some m')
      × (m'.proc ≡ m.proc)
      × (update_pc m' ≡ (
          if stays inst
          then m'
          else record m' { proc = move (length_in_bytes (decode_instruction_length w)) m.proc }))
unfolding update_pc
update_pc-stays w inst m decodes good runs = (
  decoded_as w inst (type_or_bad inst) m,
  decodes_as w inst m decodes good,
  refl,
  rw runs (ground (arith, stays_lem inst)),
)

-- C.ADDI4SPN on a valid state leaves the sum in its destination and in the stack pointer too.
pub c_addi4_stack_pointer-sp :
    (d : CiwType) (a : ℕ) {p : ProcState} {b : List ℕ}
    → IsValid p b
    → d.rd_p < 8
    → proc_read_reg sp p ≡ some a
    → (q : ProcState) × (c_addi4_stack_pointer d p ≡ some q)
      × (proc_read_reg (rp_shift d.rd_p) q ≡ some (u32 (a + d.imm)))
      × (proc_read_reg sp q ≡ some (u32 (a + d.imm)))
unfolding c_addi4_stack_pointer add_immediate
c_addi4_stack_pointer-sp d a {p} {b} v h e =
    let sum = u32 (a + d.imm) in
    let (p₁, writes₁, reads₁, v₁) = proc_read_reg-write_reg sp sum v in
    let (p₂, writes₂, reads₂, _) = proc_read_reg-write_reg (rp_shift d.rd_p) sum v₁ in
    let moved : proc_read_reg sp p₁ ≡ some sum = ground (arith, reads₁ sp) in
    (
      p₂,
      rw (e, writes₁, moved, writes₂) refl,
      ground (arith, reads₂ (rp_shift d.rd_p)),
      ground (arith, reads₂ sp, moved),
    )
