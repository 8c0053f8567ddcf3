-- ===== src/Mem/Tests.antt =====
-- The memory on a block of eight bytes, with an object that goes round the end.
use rv.Common.{ℕ, ◌≡◌, ◌>>=◌, arith, refl, true, false, some, List, [], ◌∷◌}
use rv.Mem.{Mem, write_loop, mem_write, mem_read}
use rv.Mem.RoundTrip.{Access, mem_read-write}

abbrev block : List ℕ
block = 10 ∷ 11 ∷ 12 ∷ 13 ∷ 14 ∷ 15 ∷ 16 ∷ 17 ∷ []

abbrev memory : Mem
memory = record { mem = some block; mem_size = 8 }

abbrev object : List ℕ
object = 1 ∷ 2 ∷ 3 ∷ []

access : Access 6 3 block memory
access = record {
  block = refl;
  fits = record {
    some_size = omega arith;
    room = refl;
    short = omega arith;
    no_wrap = omega arith;
  };
  some_bytes = omega arith;
}

mem_write_round :
    mem_write true 6 (some object) 3 memory
    ≡ some (3, record memory { mem = some (3 ∷ 11 ∷ 12 ∷ 13 ∷ 14 ∷ 15 ∷ 1 ∷ 2 ∷ []) })
unfolding mem_write write_loop
mem_write_round = refl

mem_read-write_example :
    (mem_write false 6 (some object) 3 memory >>= λ w.
    mem_read false 6 (some (0 ∷ 0 ∷ 0 ∷ [])) 3 w.1)
    ≡ some (3, some object)
mem_read-write_example = mem_read-write false 6 object (0 ∷ 0 ∷ 0 ∷ []) refl access
