-- ===== src/Rob/Invariant.antt =====
-- The representation invariant of `struct rob_ctrl`, sw/src/rob.c.
use rv.Common.{
  ℕ, ◌+◌, ◌≤◌, ◌<◌, ◌≡◌, ◌⊎◌, Bool, Option, none, some, List, length, length-set, next_cases, arith,
}
use rv.Rob.{Rob, RobData, Commit, rob_create, rob_issue, rob_write, rob_commit}

pub record IsValid (r : Rob) : Type 0 where
  pub room : length r.entries ≡ r.size
  pub small : r.size ≤ 256
  pub commit_in : r.commit_ptr < r.size
  pub issue_in : r.issue_ptr < r.size
  pub cnt_le : r.cnt ≤ r.size
  pub window : (r.issue_ptr ≡ r.commit_ptr + r.cnt) ⊎ (r.issue_ptr + r.size ≡ r.commit_ptr + r.cnt)

-- A successful `rob_create` of at most 256 entries is valid and empty.
pub rob_create-IsValid :
    (size : ℕ) (block : List RobData) (r : Rob)
    → r.size ≡ 0
    → 0 < size
    → size ≤ 256
    → length block ≡ size
    → IsValid (rob_create size (some block) r).1
unfolding rob_create
rob_create-IsValid size block r free h k e = ground arith

pub rob_issue-IsValid :
    (dest : ℕ) (src : Option ℕ) {r r' : Rob} {ok : Bool} {out : Option ℕ}
    → IsValid r
    → rob_issue dest src r ≡ some (ok, out, r')
    → IsValid r'
unfolding rob_issue
rob_issue-IsValid dest none v h = ground arith
rob_issue-IsValid dest (some src) {r} v h =
    grind (arith, length-set, next_cases r.issue_ptr r.size v.issue_in)

pub rob_write-IsValid :
    (addr value : ℕ) {r r' : Rob} {ok : Bool}
    → IsValid r
    → rob_write addr value r ≡ some (ok, r')
    → IsValid r'
unfolding rob_write
rob_write-IsValid addr value {r} v h = grind (arith, length-set)

pub rob_commit-IsValid :
    {r r' : Rob} {c : Option Commit} → IsValid r → rob_commit r ≡ some (c, r') → IsValid r'
unfolding rob_commit
rob_commit-IsValid {r} v h = ground (arith, next_cases r.commit_ptr r.size v.commit_in)
