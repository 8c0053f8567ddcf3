-- ===== src/Mem.antt =====
-- The byte memory, sw/src/mem.c. Addresses are `uint32_t`, since the index adds a `uint32_t`.
-- A result `none` is undefined behaviour.
pub mod Loop
pub mod RoundTrip
pub mod Endian
mod Tests
use rv.Common.{
  ℕ, zero, suc, ◌+◌, ◌-◌, ◌%◌, ltb, ◌==◌, if◌then◌else◌, ◌>>=◌, ◌>>◌, require, Bool, true, false,
  Option, none, some, List, [], get_elem?, store,
}
use rv.Word.{u32}

-- `mem`, `none` for NULL, and `mem_size`.
pub record Mem : Type 0 where
  pub mem : Option (List ℕ)
  pub mem_size : ℕ

-- `enomem` is the platform's ENOMEM; `block` is what `malloc` returns.
unfoldable pub mem_create : ℕ → ℕ → Option (List ℕ) → Mem → ℕ × Mem
mem_create enomem size block m =
    (elim block [ none ↦ enomem | some b ↦ 0 ], record { mem = block; mem_size = size })

unfoldable pub mem_destroy : Mem → Mem
mem_destroy m = record { mem = none; mem_size = 0 }

-- The byte of the object that goes with byte `i` of the memory, on a host of either endianness.
abbrev pub host_index : Bool → ℕ → ℕ → ℕ
host_index little n i = if little then i else n - 1 - i

-- `mem[(addr + i) % mem_size]`: `% 0` is undefined.
abbrev pub cell : ℕ → ℕ → ℕ → Option ℕ
cell size addr i = require (ltb 0 size) >> some (u32 (addr + i) % size)

module _ (little : Bool) (size addr n : ℕ) where
  -- The loop of `mem_write` at `i`, with `left` rounds to go; `d` is the object.
  unfoldable pub write_loop : ℕ → ℕ → List ℕ → List ℕ → Option (List ℕ)
  write_loop zero i d b = some b
  write_loop (suc left) i d b = do
    v ← get_elem? d (host_index little n i)
    k ← cell size addr i
    b' ← store b k v
    write_loop left (i + 1) d b'

  -- The loop of `mem_read`; `b` is the memory, `d` the object that is filled.
  unfoldable pub read_loop : ℕ → ℕ → List ℕ → List ℕ → Option (List ℕ)
  read_loop zero i b d = some d
  read_loop (suc left) i b d = do
    k ← cell size addr i
    v ← get_elem? b k
    d' ← store d (host_index little n i) v
    read_loop left (i + 1) b d'

module _ (little : Bool) where
  -- `data` is `none` for NULL, or the bytes of the object that it points to.
  unfoldable pub mem_write : ℕ → Option (List ℕ) → ℕ → Mem → Option (ℕ × Mem)
  mem_write addr none n m = some (0, m)
  mem_write addr (some d) n m = if n == 0 then some (0, m) else elim m.mem [
    | none ↦ some (0, m)
    | some b ↦ do
      b' ← write_loop little m.mem_size addr n n 0 d b
      some (n, record m { mem = some b' })
  ]

  unfoldable pub mem_read : ℕ → Option (List ℕ) → ℕ → Mem → Option (ℕ × Option (List ℕ))
  mem_read addr none n m = some (0, none)
  mem_read addr (some d) n m = if n == 0 then some (0, some d) else elim m.mem [
    | none ↦ some (0, some d)
    | some b ↦ do d' ← read_loop little m.mem_size addr n n 0 b d; some (n, some d')
  ]
