-- ===== src/Proc/Tests.antt =====
-- The processor state with a memory of zeros.
use rv.Common.{
  if◌then◌else◌, ◌&&◌, ◌==◌, ◌>>=◌, [], ℕ, ◌≡◌, arith, refl, length, replicate, length-replicate,
  none, some, List, ◌∷◌, true,
}
use rv.Proc.{ProcState, proc_memsize, proc_write_reg, proc_read_reg, proc_write_mem, proc_read_mem}
use rv.Proc.Registers.{writable, proc_read_reg-write_reg}
use rv.Proc.Memory.{proc_read_mem-write_mem}
use rv.Proc.Invariant.{IsValid}

zeros : (n : ℕ) → (b : List ℕ) × (length b ≡ n)
zeros n = (replicate n 0, length-replicate n 0)

-- As many zeros as the memory has bytes; they are not computed.
abbrev block : List ℕ
block = (zeros proc_memsize).0

length-block : length block ≡ proc_memsize
length-block = (zeros proc_memsize).1

abbrev off : ProcState
off = record { pc = 0; x = replicate 16 0; mem = none }

abbrev on : ProcState
on = record { pc = 8; x = 0 ∷ replicate 15 5; mem = some block }

on-IsValid : IsValid on block
on-IsValid = record {
  registers = refl;
  zero_value = refl;
  pc_in = omega arith;
  block = refl;
  room = length-block;
}

proc_read_reg-write_reg_example :
    (p' : ProcState) × (proc_write_reg 3 77 on ≡ some (77, p'))
    × ((k : ℕ)
        → proc_read_reg k p' ≡ (if writable 3 && (3 == k) then some 77 else proc_read_reg k on))
    × IsValid p' block
proc_read_reg-write_reg_example = proc_read_reg-write_reg 3 77 on-IsValid

proc_read_mem-write_mem_example :
    (proc_write_mem true 0x7FFFFFFE (some (1 ∷ 2 ∷ 3 ∷ 4 ∷ [])) 4 on >>= λ w.
    proc_read_mem true 0x7FFFFFFE (some (9 ∷ 9 ∷ 9 ∷ 9 ∷ [])) 4 w.1)
    ≡ some (4, some (1 ∷ 2 ∷ 3 ∷ 4 ∷ []))
proc_read_mem-write_mem_example =
    proc_read_mem-write_mem true 0x7FFFFFFE (1 ∷ 2 ∷ 3 ∷ 4 ∷ []) (9 ∷ 9 ∷ 9 ∷ 9 ∷ []) on-IsValid
      (omega arith) (omega arith) refl
