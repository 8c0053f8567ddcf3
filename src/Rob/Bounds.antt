-- ===== src/Rob/Bounds.antt =====
-- Which addresses `rob_write` and `rob_read` of sw/src/rob.c accept.
use rv.Common.{
  ℕ, ◌≡◌, ◌<◌, ◌↔◌, arith, ◌>>=◌, true, none, some, get_elem?-none, get_elem?-eq-get_or, length-set,
  get_elem?-set_self, get_or,
}
use rv.Rob.{Rob, RobData, rob_write, rob_read}
use rv.Rob.Invariant.{IsValid}
use rv.Rob.Refine.{junk}

-- On a valid buffer `rob_write` and `rob_read` leave the array exactly at the address `size`, which
-- their tests let through.
pub rob_fault_iff :
    (addr value old : ℕ) {r : Rob}
    → IsValid r
    → ((rob_write addr value r ≡ none) ↔ (addr ≡ r.size))
      × ((rob_read addr old r ≡ none) ↔ (addr ≡ r.size))
unfolding rob_write rob_read
rob_fault_iff addr value old {r} v =
    ground (arith, get_elem?-none r.entries addr, get_elem?-eq-get_or r.entries addr junk)

-- What `rob_write` stores at an address inside a valid buffer, `rob_read` returns as ready.
pub rob_read-write :
    (addr value old : ℕ) {r : Rob}
    → IsValid r
    → addr < r.size
    → (rob_write addr value r >>= λ w. rob_read addr old w.1) ≡ some (true, value)
unfolding rob_write rob_read
rob_read-write addr value old {r} v h = ground (
  arith,
  get_elem?-eq-get_or r.entries addr junk,
  length-set r.entries addr new,
  get_elem?-set_self r.entries addr new,
)
  where
    new : RobData
    new = record (get_or r.entries addr junk) { value = value; done = true }
