-- ===== src/Rob.antt =====
-- The reorder buffer, sw/src/rob.c and rob.h: a ring of entries between dispatch and commit.
-- A result `none` is undefined behaviour (an access outside `rob.data`). An `int` result that is 0
-- or 1 is a Bool. What a function stores through a pointer is part of its result.
pub mod Invariant
pub mod Spec
pub mod Refine
pub mod Order
pub mod Flush
pub mod Bounds
pub mod Total
mod Tests
use rv.Common.{
  ℕ, ◌+◌, ◌-◌, ◌%◌, ◌==◌, ltb, if◌then◌else◌, ◌>>=◌, Bool, true, false, ◌||◌, Option, none, some,
  List, [], get_elem?, set,
}
use rv.Int.{ℤ, pos, negsuc}

-- `struct rob_data`; `value` is its field `data`.
pub record RobData : Type 0 where
  pub dest : ℕ
  pub value : ℕ
  pub done : Bool

-- `struct rob_ctrl`; `entries` is the array that its field `data` points to, `[]` for NULL.
pub record Rob : Type 0 where
  pub commit_ptr : ℕ
  pub issue_ptr : ℕ
  pub size : ℕ
  pub cnt : ℕ
  pub entries : List RobData

-- `(struct rob_ctrl) {0}`
abbrev pub rob_zero : Rob
rob_zero = record { commit_ptr = 0; issue_ptr = 0; size = 0; cnt = 0; entries = [] }

-- `block` is what `malloc` returns: `none` for NULL, or an array of any content.
unfoldable pub rob_create : ℕ → Option (List RobData) → Rob → ℤ × Rob
rob_create size block r = if not_free then (negsuc 0, r) else elim block [
  | none ↦ (negsuc 1, record r { entries = [] })
  | some es ↦ (pos 0, record { commit_ptr = 0; issue_ptr = 0; size = size; cnt = 0; entries = es })
]
  where
    not_free : Bool
    not_free = ltb 0 r.size || size == 0

unfoldable pub rob_destroy : Rob → Rob
rob_destroy r = rob_zero

-- The pointer `src` is `none` for NULL, or the byte that it points to.
unfoldable pub rob_issue : ℕ → Option ℕ → Rob → Option (Bool × Option ℕ × Rob)
rob_issue dest none r = some (false, none, r)
rob_issue dest (some src) r = if r.cnt == r.size then some (false, some src, r) else do
  e ← get_elem? r.entries r.issue_ptr
  some (
    true,
    some (r.issue_ptr % 256),
    record r {
      entries = set r.entries r.issue_ptr (record e { dest = dest; done = false });
      issue_ptr = (r.issue_ptr + 1) % r.size;
      cnt = r.cnt + 1;
    },
  )

unfoldable pub rob_write : ℕ → ℕ → Rob → Option (Bool × Rob)
rob_write addr value r = if ltb r.size addr then some (false, r) else do
  e ← get_elem? r.entries addr
  some (true, record r { entries = set r.entries addr (record e { value = value; done = true }) })

-- The second argument is what `*data` holds before the call.
unfoldable pub rob_read : ℕ → ℕ → Rob → Option (Bool × ℕ)
rob_read addr old r =
    if ltb r.size addr
    then some (false, old)
    else do e ← get_elem? r.entries addr; some (e.done, e.value)

-- What a successful `rob_commit` stores through its three pointers.
pub record Commit : Type 0 where
  pub src : ℕ
  pub dest : ℕ
  pub value : ℕ

-- `rob_commit` stores through its pointers exactly if it returns 1: `some` is 1, `none` is 0.
unfoldable pub rob_commit : Rob → Option (Option Commit × Rob)
rob_commit r = if r.cnt == 0 then some (none, r) else do
  e ← get_elem? r.entries r.commit_ptr
  if e.done
      then some (
        some (record { src = r.commit_ptr % 256; dest = e.dest; value = e.value }),
        record r { commit_ptr = (r.commit_ptr + 1) % r.size; cnt = r.cnt - 1 },
      )
      else some (none, r)

-- `cnt -= issue_ptr - commit_ptr`, of signed numbers: the sum is taken first.
unfoldable pub rob_flush : Rob → Rob
rob_flush r = record r { cnt = r.cnt + r.commit_ptr - r.issue_ptr; commit_ptr = r.issue_ptr }

unfoldable pub rob_full : Rob → Bool
rob_full r = r.size == r.cnt
