-- ===== src/Reg.antt =====
-- The register file, sw/src/reg.c: values, tags of the producers, and dirty flags.
-- A result `none` is undefined behaviour. An `int` result that is 0 or 1 is a Bool.
pub mod Invariant
pub mod Renaming
mod Tests
use rv.Common.{
  ℕ, leb, ◌==◌, if◌then◌else◌, ◌>>=◌, Bool, true, false, ◌&&◌, ◌||◌, Option, none, some, List, [],
  get_elem?, set, store, replicate,
}
use rv.Int.{ℤ, pos, negsuc}

-- `struct reg`; an array is `[]` where the pointer is NULL.
pub record Reg : Type 0 where
  pub size : ℕ
  pub x : List ℕ
  pub s : List ℕ
  pub d : List Bool

abbrev pub reg_zero : Reg
reg_zero = record { size = 0; x = []; s = []; d = [] }

unfoldable pub reg_destroy : Reg → Reg
reg_destroy r = reg_zero

-- `x` is what `malloc` returns: `none` for NULL, or an array of any content. `calloc` returns zeros,
-- or NULL where its flag is false.
unfoldable pub reg_create : ℕ → Option (List ℕ) → Bool → Bool → Reg → Option (ℤ × Reg)
unfolding reg_destroy
reg_create size none s_ok d_ok r = some (negsuc 0, reg_destroy r)
reg_create size (some x) s_ok d_ok r =
    if s_ok && d_ok
    then (do
      x' ← store x 0 0
      s' ← store (replicate size 0) 0 0
      some (pos 0, record { size = size; x = x'; s = s'; d = replicate size false }))
    else some (negsuc 0, reg_destroy r)

-- The pointer is `none` for NULL, or what it points to; the result has what it points to after.
unfoldable pub reg_read_data : ℕ → Option ℕ → Reg → Option (Bool × Option ℕ)
reg_read_data addr none r = some (false, none)
reg_read_data addr (some old) r =
    if leb r.size addr
    then some (false, some old)
    else do v ← get_elem? r.x addr; some (true, some v)

unfoldable pub reg_write_data : ℕ → ℕ → Reg → Option (Bool × Reg)
reg_write_data addr v r =
    if leb r.size addr || addr == 0
    then some (false, r)
    else do x ← store r.x addr v; d ← store r.d addr false; some (true, record r { x = x; d = d })

-- The result is the dirty flag: 1 if the register waits for the entry whose tag is stored.
unfoldable pub reg_read_src : ℕ → Option ℕ → Reg → Option (Bool × Option ℕ)
reg_read_src addr none r = some (false, none)
reg_read_src addr (some old) r =
    if leb r.size addr
    then some (false, some old)
    else do tag ← get_elem? r.s addr; dirty ← get_elem? r.d addr; some (dirty, some tag)

unfoldable pub reg_write_src : ℕ → ℕ → Reg → Option (Bool × Reg)
reg_write_src addr tag r =
    if leb r.size addr || addr == 0
    then some (false, r)
    else do s ← store r.s addr tag; d ← store r.d addr true; some (true, record r { s = s; d = d })
