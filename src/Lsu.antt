-- ===== src/Lsu.antt =====
-- The buffers of the load/store unit, sw/src/lsu.c and lsu.h: set-up and scheduling. The functions
-- after `lsu_sched_store` are unfinished. A result `none` is undefined behaviour. The load buffer is
-- as long as `lb_size` says; the length of the store buffer is kept apart from `sb_size`.
pub mod Loads
pub mod Stores
mod Tests
use rv.Common.{
  ℕ, ◌+◌, ◌%◌, ltb, ◌==◌, ◌>>=◌, ◌>>◌, require, if◌then◌else◌, Bool, true, false, ◌||◌, Option,
  none, some, List, [], ◌∷◌, store,
}

-- `struct lsu_buf`
pub record LsuBuf : Type 0 where
  pub value : ℕ
  pub q : ℕ
  pub r : Bool

-- `enum lsu_status`
pub data LsuStatus : Type 0 where
  wait ready done : LsuStatus

-- `struct load_buf`; `loaded` is its field `data`.
pub record LoadBuf : Type 0 where
  pub addr : LsuBuf
  pub loaded : ℕ
  pub f3 : ℕ
  pub busy : Bool
  pub status : LsuStatus

-- `struct store_buf`; `stored` is its field `data`.
pub record StoreBuf : Type 0 where
  pub addr : LsuBuf
  pub stored : LsuBuf
  pub f3 : ℕ
  pub busy : Bool
  pub status : LsuStatus

-- `struct lsu_t`; an array is `[]` where the pointer is NULL.
pub record Lsu : Type 0 where
  pub lb_size : ℕ
  pub lb_nb : ℕ
  pub lb : List LoadBuf
  pub sb_size : ℕ
  pub sb_nb : ℕ
  pub sb_read_ptr : ℕ
  pub sb_write_ptr : ℕ
  pub sb : List StoreBuf

unfoldable pub lsu_destroy : Lsu → Lsu
lsu_destroy l = record {
  lb_size = 0;
  lb_nb = 0;
  lb = [];
  sb_size = 0;
  sb_nb = 0;
  sb_read_ptr = 0;
  sb_write_ptr = 0;
  sb = [];
}

-- `enomem` is the platform's ENOMEM; the blocks are what the two calls of `malloc` return.
unfoldable pub lsu_create :
    ℕ → ℕ → ℕ → Option (List LoadBuf) → Option (List StoreBuf) → Lsu → ℕ × Lsu
lsu_create enomem load_size store_size (some lb) (some sb) l = (
  0,
  record {
    lb_size = load_size;
    lb_nb = 0;
    lb = lb;
    sb_size = load_size;
    sb_nb = 0;
    sb_read_ptr = 0;
    sb_write_ptr = 0;
    sb = sb;
  },
)
lsu_create enomem load_size store_size _ _ l = (enomem, lsu_destroy l)

-- The entry with the load in it.
abbrev pub loading : LsuBuf → ℕ → LoadBuf → LoadBuf
loading addr f3 x = record x {
  addr = addr;
  busy = true;
  f3 = f3;
  status = if addr.r then LsuStatus.wait else LsuStatus.ready;
}

abbrev pub storing : LsuBuf → LsuBuf → ℕ → StoreBuf
storing addr stored f3 = record {
  addr = addr;
  stored = stored;
  f3 = f3;
  busy = true;
  status = if addr.r || stored.r then LsuStatus.wait else LsuStatus.ready;
}

-- The first free entry takes the load; `none` if there is no free entry.
unfoldable pub place_load : LsuBuf → ℕ → List LoadBuf → Option (List LoadBuf)
place_load addr f3 [] = none
place_load addr f3 (x ∷ xs) =
    let rest = place_load addr f3 xs in
    if x.busy then (do ys ← rest; some (x ∷ ys)) else some (loading addr f3 x ∷ xs)

unfoldable pub lsu_sched_load : LsuBuf → ℕ → Lsu → Bool × Lsu
lsu_sched_load addr f3 l =
    if l.lb_size == l.lb_nb then (false, l) else elim (place_load addr f3 l.lb) [
      | none ↦ (false, l)
      | some lb ↦ (true, record l { lb = lb; lb_nb = l.lb_nb + 1 })
    ]

unfoldable pub lsu_sched_store : LsuBuf → LsuBuf → ℕ → Lsu → Option (Bool × Lsu)
lsu_sched_store addr stored f3 l = if l.sb_size == l.sb_nb then some (false, l) else do
  sb ← store l.sb l.sb_write_ptr (storing addr stored f3)
  require (ltb 0 l.sb_size)
      >> some (
        true,
        record l { sb = sb; sb_nb = l.sb_nb + 1; sb_write_ptr = (l.sb_write_ptr + 1) % l.sb_size },
      )
