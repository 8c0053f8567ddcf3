-- ===== src/Rob/Spec.antt =====
-- What a reorder buffer promises, with no array and no pointers: a bounded queue of tagged
-- entries, oldest first, each with its result once it is known.
use rv.Common.{
  ℕ, ◌+◌, ◌%◌, ◌==◌, if◌then◌else◌, Option, none, some, List, [], ◌∷◌, ◌++◌, map, length,
}
use rv.Rob.{Commit}

pub record Entry : Type 0 where
  pub tag : ℕ
  pub dest : ℕ
  pub result : Option ℕ

-- `next` is the tag that the next entry gets.
pub record Queue : Type 0 where
  pub next : ℕ
  pub pending : List Entry

-- What a client asks of a buffer, and what it sees of each call.
pub data Op : Type 0 where
  issue : ℕ → Op
  write : ℕ → ℕ → Op
  commit : Op

pub data Reply : Type 0 where
  issued : Option ℕ → Reply
  written : Reply
  committed : Option Commit → Reply

-- A result that arrives goes to the entry with its tag.
abbrev pub complete : ℕ → ℕ → Entry → Entry
complete tag value e = if e.tag == tag then record e { result = some value } else e

module _ (size : ℕ) where
  unfoldable pub issue_step : ℕ → Queue → Option ℕ × Queue
  issue_step dest q = if length q.pending == size then (none, q) else (
    some q.next,
    record {
      next = (q.next + 1) % size;
      pending = q.pending ++ (record { tag = q.next; dest = dest; result = none } ∷ []);
    },
  )

unfoldable pub write_step : ℕ → ℕ → Queue → Queue
write_step tag value q = record q { pending = map (complete tag value) q.pending }

-- Only the oldest entry leaves, and only with a result.
commit_head : List Entry → Option Commit × List Entry
commit_head [] = (none, [])
commit_head (e ∷ es) = elim e.result [
  | none ↦ (none, e ∷ es)
  | some v ↦ (some (record { src = e.tag; dest = e.dest; value = v }), es)
]

unfoldable pub commit_step : Queue → Option Commit × Queue
unfolding commit_head
commit_step q = let (c, rest) = commit_head q.pending in (c, record q { pending = rest })

module _ (size : ℕ) where
  unfoldable pub step : Op → Queue → Reply × Queue
  step (issue dest) q = let (t, q') = issue_step size dest q in (issued t, q')
  step (write tag value) q = (written, write_step tag value q)
  step commit q = let (c, q') = commit_step q in (committed c, q')

  unfoldable pub run : List Op → Queue → List Reply × Queue
  unfolding step
  run [] q = ([], q)
  run (op ∷ ops) q =
      let (reply, q') = step op q in let (replies, last) = run ops q' in (reply ∷ replies, last)
