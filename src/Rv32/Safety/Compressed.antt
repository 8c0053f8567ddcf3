-- ===== src/Rv32/Safety/Compressed.antt =====
-- The compressed instructions of sw/ELE749_projet1-develop/src/instructionsRV32C.c leave a valid
-- processor.
use rv.Word.{u32}
use rv.Common.{◌+◌, Bool}
use rv.Proc.{ProcState, proc_read_reg, proc_get_pc}
use rv.Alu.{f10_add, f10_sll, f10_xor, f10_srl, f10_or, f10_and, f10_sub, f10_sra, alu_exec}
use rv.Rv32.Data.{CrType, CiType, CssType, CiwType, ClType, CsType, CaType, CbType, CjType}
use rv.Rv32.Base.{
  shift_left_immediate, shift_right_immediate, shift_right_arith_imm, add, add_immediate, sub, xor,
  or, and, and_immediate,
}
use rv.Rv32.Compressed.{
  lr, sp, rp_shift, c_jump, c_jump_and_link, c_jump_register, c_branch_on_equal_zero,
  c_branch_not_equal_zero, c_load_immediate, c_load_upper_immediate, c_add_immediate,
  c_addi16_stack_pointer, c_addi4_stack_pointer, c_shift_left_logical_immediate,
  c_shift_right_logical_immediate, c_shift_right_arithmetic_immediate, c_and_immediate, c_move,
  c_add, c_and, c_or, c_xor, c_sub, c_store_word, c_store_word_stack_pointer,
  c_load_word_stack_pointer, c_load_word,
}
use rv.Rv32.Execute.{run_branch}
use rv.Rv32.Safety.Accesses.{load_word-Sound, store_word-Sound}
use rv.Rv32.Safety.Sound.{Valid, Sound, Sound-bind, Sound-then, Sound-some, put-Sound, move-Valid}
use rv.Rv32.Safety.Instructions.{
  registers-Sound, immediate-Sound, run_branch-Sound, jump_and_link-Sound,
  jump_and_link_register-Sound, upper-Sound,
}

pub c_load_word_stack_pointer-Sound :
    (little : Bool) (d : CiType) {p : ProcState}
    → Valid p
    → Sound (c_load_word_stack_pointer little d p)
unfolding c_load_word_stack_pointer
c_load_word_stack_pointer-Sound little d {p} v = load_word-Sound little _ v

pub c_store_word_stack_pointer-Sound :
    (little : Bool) (d : CssType) {p : ProcState}
    → Valid p
    → Sound (c_store_word_stack_pointer little d p)
unfolding c_store_word_stack_pointer
c_store_word_stack_pointer-Sound little d {p} v = store_word-Sound little _ v

pub c_load_word-Sound :
    (little : Bool) (d : ClType) {p : ProcState} → Valid p → Sound (c_load_word little d p)
unfolding c_load_word
c_load_word-Sound little d {p} v = load_word-Sound little _ v

pub c_store_word-Sound :
    (little : Bool) (d : CsType) {p : ProcState} → Valid p → Sound (c_store_word little d p)
unfolding c_store_word
c_store_word-Sound little d {p} v = store_word-Sound little _ v

pub c_jump-Sound : (d : CjType) {p : ProcState} → Valid p → Sound (c_jump d p)
unfolding c_jump
c_jump-Sound d {p} v = jump_and_link-Sound _ v

pub c_jump_and_link-Sound : (d : CjType) {p : ProcState} → Valid p → Sound (c_jump_and_link d p)
unfolding c_jump_and_link
c_jump_and_link-Sound d {p} v =
    Sound-then (put-Sound lr (u32 (proc_get_pc p + 2)) v)
      (λ q w. Sound-some (move-Valid d.jumptarget w))

pub c_jump_register-Sound : (d : CrType) {p : ProcState} → Valid p → Sound (c_jump_register d p)
unfolding c_jump_register
c_jump_register-Sound d {p} v = jump_and_link_register-Sound _ v

pub c_branch_on_equal_zero-Sound :
    (d : CbType) {p : ProcState} → Valid p → Sound (c_branch_on_equal_zero d p)
unfolding c_branch_on_equal_zero run_branch
c_branch_on_equal_zero-Sound d {p} v = run_branch-Sound 0 _ v

pub c_branch_not_equal_zero-Sound :
    (d : CbType) {p : ProcState} → Valid p → Sound (c_branch_not_equal_zero d p)
unfolding c_branch_not_equal_zero run_branch
c_branch_not_equal_zero-Sound d {p} v = run_branch-Sound 1 _ v

pub c_load_immediate-Sound : (d : CiType) {p : ProcState} → Valid p → Sound (c_load_immediate d p)
unfolding c_load_immediate add_immediate alu_exec
c_load_immediate-Sound d {p} v = immediate-Sound f10_add _ v

pub c_add_immediate-Sound : (d : CiType) {p : ProcState} → Valid p → Sound (c_add_immediate d p)
unfolding c_add_immediate add_immediate alu_exec
c_add_immediate-Sound d {p} v = immediate-Sound f10_add _ v

pub c_addi16_stack_pointer-Sound :
    (d : CiType) {p : ProcState} → Valid p → Sound (c_addi16_stack_pointer d p)
unfolding c_addi16_stack_pointer add_immediate alu_exec
c_addi16_stack_pointer-Sound d {p} v = immediate-Sound f10_add _ v

pub c_load_upper_immediate-Sound :
    (d : CiType) {p : ProcState} → Valid p → Sound (c_load_upper_immediate d p)
unfolding c_load_upper_immediate
c_load_upper_immediate-Sound d {p} v = (upper-Sound _ v).0

pub c_addi4_stack_pointer-Sound :
    (d : CiwType) {p : ProcState} → Valid p → Sound (c_addi4_stack_pointer d p)
unfolding c_addi4_stack_pointer add_immediate alu_exec
c_addi4_stack_pointer-Sound d {p} v =
    Sound-then (immediate-Sound f10_add _ v)
      (λ q w. Sound-bind (proc_read_reg sp q) (λ a _. put-Sound (rp_shift d.rd_p) a w))

pub c_shift_left_logical_immediate-Sound :
    (d : CiType) {p : ProcState} → Valid p → Sound (c_shift_left_logical_immediate d p)
unfolding c_shift_left_logical_immediate shift_left_immediate alu_exec
c_shift_left_logical_immediate-Sound d {p} v = immediate-Sound f10_sll _ v

pub c_shift_right_logical_immediate-Sound :
    (d : CbType) {p : ProcState} → Valid p → Sound (c_shift_right_logical_immediate d p)
unfolding c_shift_right_logical_immediate shift_right_immediate alu_exec
c_shift_right_logical_immediate-Sound d {p} v = immediate-Sound f10_srl _ v

pub c_shift_right_arithmetic_immediate-Sound :
    (d : CbType) {p : ProcState} → Valid p → Sound (c_shift_right_arithmetic_immediate d p)
unfolding c_shift_right_arithmetic_immediate shift_right_arith_imm alu_exec
c_shift_right_arithmetic_immediate-Sound d {p} v = immediate-Sound f10_sra _ v

pub c_and_immediate-Sound : (d : CbType) {p : ProcState} → Valid p → Sound (c_and_immediate d p)
unfolding c_and_immediate and_immediate alu_exec
c_and_immediate-Sound d {p} v = immediate-Sound f10_and _ v

pub c_move-Sound : (d : CrType) {p : ProcState} → Valid p → Sound (c_move d p)
unfolding c_move add alu_exec
c_move-Sound d {p} v = registers-Sound f10_add _ v

pub c_add-Sound : (d : CrType) {p : ProcState} → Valid p → Sound (c_add d p)
unfolding c_add add alu_exec
c_add-Sound d {p} v = registers-Sound f10_add _ v

pub c_and-Sound : (d : CaType) {p : ProcState} → Valid p → Sound (c_and d p)
unfolding c_and and alu_exec
c_and-Sound d {p} v = registers-Sound f10_and _ v

pub c_or-Sound : (d : CaType) {p : ProcState} → Valid p → Sound (c_or d p)
unfolding c_or or alu_exec
c_or-Sound d {p} v = registers-Sound f10_or _ v

pub c_xor-Sound : (d : CaType) {p : ProcState} → Valid p → Sound (c_xor d p)
unfolding c_xor xor alu_exec
c_xor-Sound d {p} v = registers-Sound f10_xor _ v

pub c_sub-Sound : (d : CaType) {p : ProcState} → Valid p → Sound (c_sub d p)
unfolding c_sub sub alu_exec
c_sub-Sound d {p} v = registers-Sound f10_sub _ v
