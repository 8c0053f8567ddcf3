-- ===== src/Proc/Counter.antt =====
-- The program counter of sw/ELE749_projet1-develop/src/procState.c.
use rv.Common.{ap, ℕ, ◌≡◌, ◌<◌, ◌+◌, ◌%◌, ◌^◌, arith, List}
use rv.Word.{u32, neg32}
use rv.Proc.{proc_memsize, ProcState, proc_set_pc, proc_get_pc, proc_update_pc}
use rv.Proc.Invariant.{IsValid}

-- On a valid state, a jump by an offset adds it modulo the size of the memory, and leaves a valid
-- state; a jump back by the same offset, of either sign, restores the state.
pub proc_update_pc_back :
    (offset : ℕ) {p : ProcState} {b : List ℕ}
    → IsValid p b
    → offset < 2 ^ 32
    → let p' = (proc_update_pc offset p).1 in
      (p'.pc ≡ (p.pc + offset) % proc_memsize)
      × IsValid p' b
      × ((proc_update_pc (neg32 offset) p').1 ≡ p)
unfolding proc_update_pc proc_set_pc proc_get_pc
proc_update_pc_back offset {p} {b} v h =
    let here : u32 (p.pc + offset) % proc_memsize % proc_memsize ≡ (p.pc + offset) % proc_memsize =
      omega arith in
    let back : u32 (u32 (p.pc + offset) % proc_memsize % proc_memsize + neg32 offset)
          % proc_memsize
          % proc_memsize
        ≡ p.pc =
      omega (arith, v.pc_in) in
    (
      here,
      record {
        registers = v.registers;
        zero_value = v.zero_value;
        pc_in = omega arith;
        block = v.block;
        room = v.room;
      },
      ap (λ q. record p { pc = q }) back,
    )
