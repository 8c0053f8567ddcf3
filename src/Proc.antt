-- ===== src/Proc.antt =====
-- The processor state of the in-order simulator,
-- sw/ELE749_projet1-develop/src/procState.c: program counter, registers and memory.
-- A result `none` is undefined behaviour. Words are bit patterns below 2 ^ 32, and the `uint8_t`
-- numbers of registers are natural numbers.
pub mod Invariant
pub mod Registers
pub mod Memory
pub mod Counter
mod Tests
use rv.Common.{
  zero, suc, ℕ, ◌+◌, ◌%◌, ◌<◌, ltb, leb, ◌==◌, ◌||◌, if◌then◌else◌, ◌>>=◌, Bool, Option, none, some,
  List, [], ◌∷◌, map, replicate, store, get_elem?,
}
use rv.Int.{ℤ, pos, negsuc}
use rv.Word.{u32}
use rv.Mem.{write_loop, read_loop}

abbrev pub proc_memsize : ℕ
proc_memsize = 0x01000000

abbrev pub proc_regsize : ℕ
proc_regsize = 16

-- `struct procState`; `mem` is `none` for NULL.
pub record ProcState : Type 0 where
  pub pc : ℕ
  pub x : List ℕ
  pub mem : Option (List ℕ)

-- `block` is what `calloc` returns; `memset` covers the whole block. EALLOC is 420.
unfoldable pub proc_init : Option (List ℕ) → ProcState → ℤ × ProcState
proc_init block p = elim p.mem [
  | some b ↦ (pos 0, record { pc = 0; x = replicate 16 0; mem = some (map (λ v. 0) b) })
  | none ↦ elim block [
    | none ↦ (negsuc 419, record { pc = 0; x = replicate 16 0; mem = none })
    | some b ↦ (pos 0, record { pc = 0; x = replicate 16 0; mem = some b })
  ]
]

-- The first `n` numbers become 0.
unfoldable pub clear_first : ℕ → List ℕ → List ℕ
clear_first zero xs = xs
clear_first (suc n) [] = []
clear_first (suc n) (x ∷ xs) = 0 ∷ clear_first n xs

-- `memset` is given 16 bytes, which are four registers.
unfoldable pub proc_destroy : ProcState → ProcState
proc_destroy p = record { pc = 0; x = clear_first 4 p.x; mem = none }

unfoldable pub proc_write_reg : ℕ → ℕ → ProcState → Option (ℕ × ProcState)
proc_write_reg reg val p =
    if leb reg 0 || leb proc_regsize reg
    then some (0, p)
    else do x ← store p.x reg val; some (val, record p { x = x })

unfoldable pub proc_read_reg : ℕ → ProcState → Option ℕ
proc_read_reg reg p = if leb proc_regsize reg then some 0 else get_elem? p.x reg

module _ (little : Bool) where
  -- The loops are those of mem.c, with a memory of fixed size.
  unfoldable pub proc_write_mem : ℕ → Option (List ℕ) → ℕ → ProcState → Option (ℕ × ProcState)
  proc_write_mem addr none n p = some (0, p)
  proc_write_mem addr (some d) n p = if n == 0 then some (0, p) else elim p.mem [
    | none ↦ some (0, p)
    | some b ↦ do
      b' ← write_loop little proc_memsize addr n n 0 d b
      some (n, record p { mem = some b' })
  ]

  unfoldable pub proc_read_mem : ℕ → Option (List ℕ) → ℕ → ProcState → Option (ℕ × Option (List ℕ))
  proc_read_mem addr none n p = some (0, none)
  proc_read_mem addr (some d) n p = if n == 0 then some (0, some d) else elim p.mem [
    | none ↦ some (0, some d)
    | some b ↦ do d' ← read_loop little proc_memsize addr n n 0 b d; some (n, some d')
  ]

unfoldable pub proc_get_pc : ProcState → ℕ
proc_get_pc p = p.pc

-- It returns the address as given, not the one stored.
unfoldable pub proc_set_pc : ℕ → ProcState → ℕ × ProcState
proc_set_pc new_pc p = (new_pc, record p { pc = new_pc % proc_memsize })

-- The sum is taken of `uint32_t`.
unfoldable pub proc_update_pc : ℕ → ProcState → ℕ × ProcState
proc_update_pc offset p = proc_set_pc (u32 (proc_get_pc p + offset) % proc_memsize) p
