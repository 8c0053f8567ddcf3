-- ===== src/Rv32/Safety/Instructions.antt =====
-- Every instruction of sw/ELE749_projet1-develop/src/instructionsRV32E.c leaves a valid processor,
-- by the groups of `runInstruction`.
use rv.Common.{ltb, leb, ◌==◌, if◌then◌else◌, ◌>>=◌, ℕ, ◌+◌, Bool, not, Option, some}
use rv.Proc.{ProcState, proc_read_reg, proc_get_pc}
use rv.Word.{u32}
use rv.Alu.{
  f10_add, f10_sll, f10_slt, f10_xor, f10_srl, f10_or, f10_and, f10_sub, f10_sra, slt, from_bool,
  alu_exec,
}
use rv.Rv32.Data.{RType, IType, BType, UType, JType, put, move, abs_int}
use rv.Rv32.Base.{
  shift_left, shift_left_immediate, shift_right, shift_right_immediate, shift_right_arithmetic,
  shift_right_arith_imm, add, add_immediate, sub, xor, xor_immediate, or, or_immediate, and,
  and_immediate, set_less_than, set_less_than_immediate, set_less_than_unsigned,
  set_less_than_immediate_unsigned, load_upper_imm, add_upper_imm_to_pc,
}
use rv.Rv32.Transfer.{
  branch_equal, branch_not_equal, branch_less_than, branch_more_or_equal, branch_less_than_unsigned,
  branch_more_or_equal_unsigned, jump_and_link, jump_and_link_register,
}
use rv.Rv32.Execute.{run_op, run_op_imm, run_branch}
use rv.Rv32.Unit.{of_registers, of_immediate}
use rv.Rv32.Safety.Sound.{
  Valid, Sound, Sound-bind, Sound-then, Sound-if, Sound-some, put-Sound, proc_set_pc-Valid,
  move-Valid,
}

-- A value computed from one register, or from two, is put into a register.
put_of_one :
    (k rd : ℕ) (g : ℕ → Option ℕ) {p : ProcState}
    → Valid p
    → Sound (proc_read_reg k p >>= λ a. g a >>= λ v. put rd v p)
put_of_one k rd g {p} v =
    Sound-bind (proc_read_reg k p) (λ a _. Sound-bind (g a) (λ val _. put-Sound rd val v))

put_of_two :
    (j k rd : ℕ) (g : ℕ → ℕ → Option ℕ) {p : ProcState}
    → Valid p
    → Sound (proc_read_reg j p >>= λ a. proc_read_reg k p >>= λ b. g a b >>= λ v. put rd v p)
put_of_two j k rd g {p} v = Sound-bind (proc_read_reg j p) (λ a _. put_of_one k rd (g a) v)

pub registers-Sound : (f10 : ℕ) (d : RType) {p : ProcState} → Valid p → Sound (of_registers f10 d p)
registers-Sound f10 d v = put_of_two d.rs1 d.rs2 d.rd (alu_exec f10) v

pub immediate-Sound : (f10 : ℕ) (d : IType) {p : ProcState} → Valid p → Sound (of_immediate f10 d p)
immediate-Sound f10 d v = put_of_one d.rs1 d.rd (λ a. alu_exec f10 a d.imm) v

set_less_than_unsigned-Sound :
    (d : RType) {p : ProcState} → Valid p → Sound (set_less_than_unsigned d p)
unfolding set_less_than_unsigned
set_less_than_unsigned-Sound d {p} v = Sound-bind (proc_read_reg d.rs1 p) (λ a _.
    Sound-bind (proc_read_reg d.rs2 p) (λ b _.
      Sound-bind (abs_int a)
        (λ a' _. Sound-bind (abs_int b) (λ b' _. put-Sound d.rd (from_bool (ltb a' b')) v))))

set_less_than_immediate_unsigned-Sound :
    (d : IType) {p : ProcState} → Valid p → Sound (set_less_than_immediate_unsigned d p)
unfolding set_less_than_immediate_unsigned
set_less_than_immediate_unsigned-Sound d {p} v = Sound-bind (proc_read_reg d.rs1 p) (λ a _.
    Sound-bind (abs_int a)
      (λ a' _. Sound-bind (abs_int d.imm) (λ b' _. put-Sound d.rd (from_bool (ltb a' b')) v)))

pub run_op-Sound : (f3 f7 : ℕ) (d : RType) {p : ProcState} → Valid p → Sound (run_op f3 f7 d p)
unfolding run_op alu_exec shift_left shift_right shift_right_arithmetic add sub xor or and
    set_less_than
run_op-Sound f3 f7 d {p} v =
    Sound-if (f3 == 0)
      (Sound-then
        (Sound-if (f7 == 0) (registers-Sound f10_add d v)
          (Sound-if (f7 == 0x20) (registers-Sound f10_sub d v) (Sound-some v)))
        (λ q w. registers-Sound f10_sll d w))
      (Sound-if (f3 == 1) (registers-Sound f10_sll d v) (
        Sound-if (f3 == 2) (registers-Sound f10_slt d v) (
          Sound-if (f3 == 3) (set_less_than_unsigned-Sound d v) (
            Sound-if (f3 == 4) (registers-Sound f10_xor d v) (
              Sound-if (f3 == 5)
                (Sound-then
                  (Sound-if (f7 == 0) (registers-Sound f10_srl d v)
                    (Sound-if (f7 == 0x20) (registers-Sound f10_sra d v) (Sound-some v)))
                  (λ q w. registers-Sound f10_or d w))
                (Sound-if (f3 == 6) (registers-Sound f10_or d v)
                  (Sound-if (f3 == 7) (registers-Sound f10_and d v) (Sound-some v))))))))

pub run_op_imm-Sound :
    (f3 f7 : ℕ) (d : IType) {p : ProcState} → Valid p → Sound (run_op_imm f3 f7 d p)
unfolding run_op_imm alu_exec shift_left_immediate shift_right_immediate shift_right_arith_imm
    add_immediate xor_immediate or_immediate and_immediate set_less_than_immediate
run_op_imm-Sound f3 f7 d {p} v = Sound-if (f3 == 0) (immediate-Sound f10_add d v) (
    Sound-if (f3 == 1) (immediate-Sound f10_sll d v) (
      Sound-if (f3 == 2) (immediate-Sound f10_slt d v) (
        Sound-if (f3 == 3) (set_less_than_immediate_unsigned-Sound d v) (
          Sound-if (f3 == 4) (immediate-Sound f10_xor d v) (
            Sound-if (f3 == 5)
              (Sound-if (f7 == 0) (immediate-Sound f10_srl d v)
                (Sound-if (f7 == 0x20) (immediate-Sound f10_sra d v) (Sound-some v)))
              (Sound-if (f3 == 6) (immediate-Sound f10_or d v)
                (Sound-if (f3 == 7) (immediate-Sound f10_and d v) (Sound-some v))))))))

-- A branch moves by the value of a test on two registers.
branch-Sound :
    (d : BType) (g : ℕ → ℕ → Option Bool) {p : ProcState}
    → Valid p
    → Sound (
        proc_read_reg d.rs1 p >>= λ a.
        proc_read_reg d.rs2 p >>= λ b. g a b >>= λ t. some (move (if t then d.imm else 4) p))
branch-Sound d g {p} v = Sound-bind (proc_read_reg d.rs1 p) (λ a _.
    Sound-bind (proc_read_reg d.rs2 p)
      (λ b _. Sound-bind (g a b) (λ t _. Sound-some (move-Valid (if t then d.imm else 4) v))))

magnitude_branch-Sound :
    (d : BType) (g : ℕ → ℕ → Bool) {p : ProcState}
    → Valid p
    → Sound (
        proc_read_reg d.rs1 p >>= λ a. proc_read_reg d.rs2 p >>= λ b.
        abs_int a >>= λ a'. abs_int b >>= λ b'. some (move (if g a' b' then d.imm else 4) p))
magnitude_branch-Sound d g {p} v = Sound-bind (proc_read_reg d.rs1 p) (λ a _.
    Sound-bind (proc_read_reg d.rs2 p) (λ b _. Sound-bind (abs_int a) (λ a' _.
      Sound-bind (abs_int b) (λ b' _. Sound-some (move-Valid (if g a' b' then d.imm else 4) v)))))

pub run_branch-Sound : (f3 : ℕ) (d : BType) {p : ProcState} → Valid p → Sound (run_branch f3 d p)
unfolding run_branch branch_equal branch_not_equal branch_less_than branch_more_or_equal
    branch_less_than_unsigned branch_more_or_equal_unsigned
run_branch-Sound f3 d {p} v = Sound-if (f3 == 0) (branch-Sound d (λ a b. some (a == b)) v) (
    Sound-if (f3 == 1) (branch-Sound d (λ a b. some (not (a == b))) v) (
      Sound-if (f3 == 4) (branch-Sound d (λ a b. some (slt a b)) v) (
        Sound-if (f3 == 5) (branch-Sound d (λ a b. some (not (slt a b))) v) (
          Sound-if (f3 == 6) (magnitude_branch-Sound d (λ a b. ltb a b) v)
            (Sound-if (f3 == 7) (magnitude_branch-Sound d (λ a b. leb b a) v) (Sound-some v))))))

pub jump_and_link-Sound : (d : JType) {p : ProcState} → Valid p → Sound (jump_and_link d p)
unfolding jump_and_link
jump_and_link-Sound d {p} v =
    Sound-then (put-Sound d.rd (u32 (proc_get_pc p + 4)) v) (λ q w. Sound-some (move-Valid d.imm w))

pub jump_and_link_register-Sound :
    (d : IType) {p : ProcState} → Valid p → Sound (jump_and_link_register d p)
unfolding jump_and_link_register
jump_and_link_register-Sound d {p} v =
    Sound-then (put-Sound d.rd (u32 (proc_get_pc p + 4)) v) (λ q w.
      Sound-bind (proc_read_reg d.rs1 q)
        (λ a _. Sound-some (proc_set_pc-Valid (u32 (d.imm + a)) w)))

pub upper-Sound :
    (d : UType) {p : ProcState}
    → Valid p
    → Sound (load_upper_imm d p) × Sound (add_upper_imm_to_pc d p)
unfolding load_upper_imm add_upper_imm_to_pc
upper-Sound d {p} v = (put-Sound d.rd d.imm v, put-Sound d.rd (u32 (d.imm + proc_get_pc p)) v)
