-- ===== src/Rob/Flush.antt =====
-- `rob_flush` of sw/src/rob.c.
use rv.Common.{ℕ, zero, suc, ◌+◌, ◌-◌, ◌≡◌, refl, arith, true, List, []}
use rv.Rob.{Rob, RobData, rob_flush, rob_full}
use rv.Rob.Invariant.{IsValid}
use rv.Rob.Refine.{contents, window}

window_empty : (es : List RobData) (size h n : ℕ) → n ≡ 0 → window es size h n ≡ []
window_empty es size h zero e = refl
window_empty es size h (suc n) e = absurd (omega arith)

-- `rob_flush` empties a valid buffer whose window lies in one piece, and leaves it valid.
pub rob_flush_straight :
    {r : Rob}
    → IsValid r
    → r.commit_ptr + r.cnt ≡ r.issue_ptr
    → ((contents (rob_flush r)).pending ≡ []) × IsValid (rob_flush r)
unfolding rob_flush
rob_flush_straight {r} v h = (
  window_empty r.entries r.size r.issue_ptr (r.cnt + r.commit_ptr - r.issue_ptr) (omega arith),
  ground arith,
)

-- `rob_flush` does not empty a valid buffer whose window goes round the end of the array: the
-- buffer is full afterwards.
pub rob_flush_wrapped :
    {r : Rob}
    → IsValid r
    → r.commit_ptr + r.cnt ≡ r.issue_ptr + r.size
    → ((rob_flush r).cnt ≡ r.size) × (rob_full (rob_flush r) ≡ true)
unfolding rob_flush rob_full
rob_flush_wrapped {r} v h = ground arith
