-- ===== src/Proc/Memory.antt =====
-- The memory of sw/ELE749_projet1-develop/src/procState.c.
use rv.Common.{
  ap₂, ℕ, zero, suc, ◌≡◌, ◌<◌, ◌≤◌, ◌+◌, ◌%◌, ◌^◌, ◌>>=◌, arith, refl, ◌∙◌, length, get_elem?,
  store, Bool, Option, some, List, ◌==◌, false,
}
use rv.Word.{u32}
use rv.Mem.{host_index, write_loop, read_loop}
use rv.Mem.Loop.{Fits, write_loop-Wrote, read_loop-Read}
use rv.Proc.{proc_memsize, ProcState, proc_write_mem, proc_read_mem}
use rv.Mem.RoundTrip.{same_bytes}
use rv.Proc.Invariant.{IsValid}
use std.Path.{fun_ext}

cell-mod :
    (addr i : ℕ)
    → i < 2 ^ 31
    → u32 (addr + i) % proc_memsize ≡ u32 (addr % proc_memsize + i) % proc_memsize
cell-mod addr i h = omega arith

module _ (little : Bool) (addr n : ℕ) (short : n < 2 ^ 31) where
  write_loop-mod :
      (left i : ℕ) (d b : List ℕ)
      → left + i ≡ n
      → write_loop little proc_memsize addr n left i d b
        ≡ write_loop little proc_memsize (addr % proc_memsize) n left i d b
  unfolding write_loop
  write_loop-mod zero i d b e = refl
  write_loop-mod (suc left) i d b e =
      ap₂
        (λ (k : ℕ) (f : List ℕ → Option (List ℕ)).
          get_elem? d (host_index little n i) >>= λ v. store b k v >>= f)
        (cell-mod addr i (omega arith))
        (fun_ext (λ b'. write_loop-mod left (i + 1) d b' (omega arith)))

  read_loop-mod :
      (left i : ℕ) (b d : List ℕ)
      → left + i ≡ n
      → read_loop little proc_memsize addr n left i b d
        ≡ read_loop little proc_memsize (addr % proc_memsize) n left i b d
  unfolding read_loop
  read_loop-mod zero i b d e = refl
  read_loop-mod (suc left) i b d e =
      ap₂
        (λ (k : ℕ) (f : List ℕ → Option (List ℕ)).
          get_elem? b k >>= λ v. store d (host_index little n i) v >>= f)
        (cell-mod addr i (omega arith))
        (fun_ext (λ d'. read_loop-mod left (i + 1) b d' (omega arith)))

-- What `procWriteMem` has written on a valid state, `procReadMem` of the same size at the same
-- address reads back, at every address and on a host of either endianness, if the object is not
-- empty and not larger than the memory.
pub proc_read_mem-write_mem :
    (little : Bool) (addr : ℕ) (d old : List ℕ) {p : ProcState} {b : List ℕ}
    → IsValid p b
    → 0 < length d
    → length d ≤ proc_memsize
    → length old ≡ length d
    → (proc_write_mem little addr (some d) (length d) p >>= λ w.
        proc_read_mem little addr (some old) (length d) w.1)
      ≡ some (length d, some d)
unfolding proc_write_mem proc_read_mem
proc_read_mem-write_mem little addr d old {p} {b} v pos_ fits l =
    let n = length d in
    let at = addr % proc_memsize in
    let short : n < 2 ^ 31 = omega arith in
    let some_bytes : (n == 0) ≡ false = ground arith in
    let before : Fits proc_memsize at n b = record {
      some_size = omega arith;
      room = v.room;
      short = fits;
      no_wrap = omega arith;
    } in
    let (b', writes, w) =
      write_loop-Wrote little proc_memsize at n n 0 d b (omega arith) (omega arith) before in
    let after : Fits proc_memsize at n b' = record {
      some_size = omega arith;
      room = w.same_length ∙ v.room;
      short = fits;
      no_wrap = omega arith;
    } in
    let (d', reads, r) = read_loop-Read little proc_memsize at n n 0 b' old (omega arith) l after in
    rw (
      some_bytes,
      v.block,
      write_loop-mod little addr n short n 0 d b (omega arith),
      writes,
      read_loop-mod little addr n short n 0 b' old (omega arith),
      reads,
      same_bytes d old d' b' l w r,
    )
