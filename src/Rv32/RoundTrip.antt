-- ===== src/Rv32/RoundTrip.antt =====
-- Stores and loads of sw/ELE749_projet1-develop/src/instructionsRV32E.c, and the program that is
-- loaded and run.
use rv.Common.{
  ◌==◌, ◌>>=◌, >>=-eq-some, length, length-append, ℕ, zero, suc, ◌/◌, ◌^◌, ◌≤◌, ◌<◌, ◌≡◌, refl, sym,
  subst, ap, ◌∙◌, Bool, true, false, some, List, [], ◌∷◌, reverse, arith,
}
use rv.Proc.{proc_memsize, ProcState, proc_write_mem, proc_read_mem}
use rv.Proc.Invariant.{IsValid}
use rv.Proc.Memory.{proc_read_mem-write_mem}
use rv.Rv32.Data.{bytes_of, value_of, object_of, object_value, read_value, write_value}
use mathlib.Core.List.{reverse-reverse, reverse-cons}

length-bytes_of : (n v : ℕ) → length (bytes_of n v) ≡ n
unfolding bytes_of
length-bytes_of zero v = refl
length-bytes_of (suc n) v = omega (arith, length-bytes_of n (v / 256))

pub length-reversed : (xs : List ℕ) → length (reverse xs) ≡ length xs
length-reversed [] = refl
length-reversed (x ∷ xs) =
    omega (
      arith,
      ap length (reverse-cons x xs),
      length-append (reverse xs) (x ∷ []),
      length-reversed xs,
    )

length-object : (l : Bool) (n v : ℕ) → length (object_of l n v) ≡ n
length-object true n v = length-bytes_of n v
length-object false n v = length-reversed (bytes_of n v) ∙ length-bytes_of n v

power_lt : (n v : ℕ) → v < 256 ^ suc n → v / 256 < 256 ^ n
power_lt n v h = grind arith

value-bytes_of : (n v : ℕ) → v < 256 ^ n → value_of (bytes_of n v) ≡ v
unfolding bytes_of value_of
value-bytes_of zero v h = omega arith
value-bytes_of (suc n) v h = omega (arith, value-bytes_of n (v / 256) (power_lt n v h))

value-object : (l : Bool) (n v : ℕ) → v < 256 ^ n → object_value l (object_of l n v) ≡ v
value-object true n v h = value-bytes_of n v h
value-object false n v h = rw (reverse-reverse (bytes_of n v)) (value-bytes_of n v h)

-- On a valid state, a number of `n` bytes, at least one and no more than the memory has, that a
-- store writes is the number that a load of the same size reads back from the same address, at
-- every address and on a host of either endianness.
pub read_value-write_value :
    (little : Bool) (n addr v : ℕ) {p : ProcState} {b : List ℕ}
    → IsValid p b
    → 0 < n
    → n ≤ proc_memsize
    → v < 256 ^ n
    → (write_value little n addr v p >>= λ q. read_value little n addr q) ≡ some v
read_value-write_value little n addr v {p} {b} valid h g small =
    let d = object_of little n v in
    let long : length d ≡ n = length-object little n v in
    let trip =
      proc_read_mem-write_mem little addr d (object_of little n 0) valid (omega (arith, long))
        (omega (arith, long)) (length-object little n 0 ∙ sym long) in
    let sized =
      subst
        (λ k.
          (proc_write_mem little addr (some d) k p >>= λ w.
          proc_read_mem little addr (some (object_of little n 0)) k w.1)
          ≡ some (k, some d))
        long trip in
    let (w, writes, reads) = >>=-eq-some (proc_write_mem little addr (some d) n p) _ sized in
    let all_read : (n == n) ≡ true = ground arith in
    rw (writes, reads, all_read, value-object little n v small) refl
