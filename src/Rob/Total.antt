-- ===== src/Rob/Total.antt =====
-- The functions of sw/src/rob.c on a valid buffer.
use rv.Common.{
  ◌==◌, Bool-cases, get_or, set, get_elem?-eq-get_or, ℕ, ◌+◌, ◌-◌, ◌%◌, ◌<◌, ◌≡◌, refl, ◌≢◌, inl,
  inr, Bool, true, false, Option, none, some, arith,
}
use rv.Rob.{Rob, Commit, rob_issue, rob_write, rob_read, rob_commit}
use rv.Rob.Refine.{junk}
use rv.Rob.Invariant.{IsValid, rob_issue-IsValid, rob_write-IsValid, rob_commit-IsValid}

pub rob_issue_total :
    (dest old : ℕ) {r : Rob}
    → IsValid r
    → r.cnt ≢ r.size
    → (r' : Rob) × (rob_issue dest (some old) r ≡ some (true, some (r.issue_ptr % 256), r'))
      × IsValid r'
      × (r'.size ≡ r.size)
unfolding rob_issue
rob_issue_total dest old {r} v free =
    let s = record (get_or r.entries r.issue_ptr junk) { dest = dest; done = false } in
    let r' = record r {
      entries = set r.entries r.issue_ptr s;
      issue_ptr = (r.issue_ptr + 1) % r.size;
      cnt = r.cnt + 1;
    } in
    let runs : rob_issue dest (some old) r ≡ some (true, some (r.issue_ptr % 256), r') =
      ground (arith, get_elem?-eq-get_or r.entries r.issue_ptr junk) in
    (r', runs, rob_issue-IsValid dest (some old) v runs, refl)

pub rob_write_total :
    (addr value : ℕ) {r : Rob}
    → IsValid r
    → addr < r.size
    → (r' : Rob) × (rob_write addr value r ≡ some (true, r')) × IsValid r' × (r'.size ≡ r.size)
unfolding rob_write
rob_write_total addr value {r} v h =
    let r' = record r {
      entries =
          set r.entries addr (record (get_or r.entries addr junk) { value = value; done = true });
    } in
    let runs : rob_write addr value r ≡ some (true, r') =
      ground (arith, get_elem?-eq-get_or r.entries addr junk) in
    (r', runs, rob_write-IsValid addr value v runs, refl)

pub rob_read_total :
    (addr old : ℕ) {r : Rob}
    → IsValid r
    → addr < r.size
    → (done : Bool) × (value : ℕ) × (rob_read addr old r ≡ some (done, value))
unfolding rob_read
rob_read_total addr old {r} v h =
    let s = get_or r.entries addr junk in
    (s.done, s.value, ground (arith, get_elem?-eq-get_or r.entries addr junk))

pub rob_commit_total :
    {r : Rob}
    → IsValid r
    → (c : Option Commit) × (r' : Rob) × (rob_commit r ≡ some (c, r'))
      × IsValid r'
      × (r'.size ≡ r.size)
unfolding rob_commit
rob_commit_total {r} v =
    let (c, r', runs, same) = commits v in (c, r', runs, rob_commit-IsValid v runs, same)
  where
    commits :
        {r : Rob}
        → IsValid r
        → (c : Option Commit) × (r' : Rob) × (rob_commit r ≡ some (c, r')) × (r'.size ≡ r.size)
    commits {r} v = elim (Bool-cases (r.cnt == 0)) [
      | inl empty ↦ (none, r, ground arith, refl)
      | inr left ↦ elim (Bool-cases (get_or r.entries r.commit_ptr junk).done) [
        | inl ready ↦ (
          some (record {
            src = r.commit_ptr % 256;
            dest = (get_or r.entries r.commit_ptr junk).dest;
            value = (get_or r.entries r.commit_ptr junk).value;
          }),
          record r { commit_ptr = (r.commit_ptr + 1) % r.size; cnt = r.cnt - 1 },
          ground (arith, get_elem?-eq-get_or r.entries r.commit_ptr junk),
          refl,
        )
        | inr waiting ↦
            (none, r, ground (arith, get_elem?-eq-get_or r.entries r.commit_ptr junk), refl)
      ]
    ]
