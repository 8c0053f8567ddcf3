-- ===== src/Rob/Order.antt =====
-- The order of the entries of the reorder buffer, sw/src/rob.c.
use rv.Common.{
  ℕ, ◌≡◌, refl, sym, ap, ◌∙◌, arith, ◌==◌, Bool-cases, All, inl, inr, none, some, List, [], ◌∷◌,
  ◌++◌, map, length, append-nil, append_assoc, map-append,
}
use rv.Rob.{Rob}
use rv.Rob.Invariant.{IsValid}
use rv.Rob.Refine.{contents, run, run_refines, InRange}
use rv.Rob.Spec.{Entry, Queue, Op, Reply, complete}
use rv.Rob.Spec

abbrev pub key : Entry → ℕ × ℕ
key e = (e.tag, e.dest)

abbrev pub keys : Queue → List (ℕ × ℕ)
keys q = map key q.pending

-- The tag and destination of each accepted issue, in the order of the calls.
abbrev pub accepted : List Op → List Reply → List (ℕ × ℕ)
accepted (Op.issue dest ∷ ops) (Reply.issued (some t) ∷ rs) = (t, dest) ∷ accepted ops rs
accepted (op ∷ ops) (r ∷ rs) = accepted ops rs
accepted _ _ = []

-- The tag and destination of each successful commit.
abbrev pub retired : List Reply → List (ℕ × ℕ)
retired [] = []
retired (Reply.committed (some c) ∷ rs) = (c.src, c.dest) ∷ retired rs
retired (_ ∷ rs) = retired rs

keys-complete :
    (tag value : ℕ) (es : List Entry) → map key (map (complete tag value) es) ≡ map key es
keys-complete tag value [] = refl
keys-complete tag value (e ∷ es) = ground (arith, keys-complete tag value es)

keys-issue :
    (size dest : ℕ) (ops : List Op) (rs : List Reply) (q : Queue)
    → let (t, q') = Spec.issue_step size dest q in
      keys q ++ accepted (Op.issue dest ∷ ops) (Reply.issued t ∷ rs) ≡ keys q' ++ accepted ops rs
unfolding Spec.issue_step
keys-issue size dest ops rs q = elim (Bool-cases (length q.pending == size)) [
  | inl full ↦ ground arith
  | inr free ↦ ground (
    arith,
    map-append key q.pending (last ∷ []),
    append_assoc (keys q) ((q.next, dest) ∷ []) (accepted ops rs),
  )
]
  where
    last : Entry
    last = record { tag = q.next; dest = dest; result = none }

keys-commit :
    (rs : List Reply) (q : Queue) (tail rest : List (ℕ × ℕ))
    → let (c, q') = Spec.commit_step q in
      keys q' ++ tail ≡ retired rs ++ rest
      → keys q ++ tail ≡ retired (Reply.committed c ∷ rs) ++ rest
unfolding Spec.commit_step
keys-commit rs q tail rest h = ground arith

keys-write : (tag value : ℕ) (q : Queue) → keys q ≡ keys (Spec.write_step tag value q)
unfolding Spec.write_step
keys-write tag value q = sym (keys-complete tag value q.pending)

-- For every sequence of calls on the queue: what it held, then what was accepted, is what was
-- retired, then what it holds.
history :
    (size : ℕ) (ops : List Op) (q : Queue)
    → let (rs, q') = Spec.run size ops q in keys q ++ accepted ops rs ≡ retired rs ++ keys q'
unfolding Spec.run
history size [] q = append-nil (keys q)
history size (Op.issue dest ∷ ops) q =
    keys-issue size dest ops (Spec.run size ops (Spec.issue_step size dest q).1).0 q
    ∙ history size ops (Spec.issue_step size dest q).1
history size (Op.write tag value ∷ ops) q =
    ap (λ k. k ++ accepted ops (Spec.run size ops (Spec.write_step tag value q)).0)
      (keys-write tag value q)
    ∙ history size ops (Spec.write_step tag value q)
history size (Op.commit ∷ ops) q =
    let q' = (Spec.commit_step q).1 in
    let (rs, last) = Spec.run size ops q' in
    keys-commit rs q (accepted ops rs) (keys last) (history size ops q')

-- From a valid reorder buffer, any sequence of issues, writes inside the buffer and commits runs
-- without a fault, and the entries leave in the order in which they came.
pub run_in_order :
    (ops : List Op) {r : Rob}
    → IsValid r
    → All (InRange r.size) ops
    → (rs : List Reply) × (last : Rob) × (run ops r ≡ some (rs, last))
      × (keys (contents r) ++ accepted ops rs ≡ retired rs ++ keys (contents last))
run_in_order ops {r} v h =
    let (last, runs, agrees, _) = run_refines ops v h in
    let (rs, q) = Spec.run r.size ops (contents r) in
    (rs, last, runs, history r.size ops (contents r) ∙ ap (λ k. retired rs ++ keys k) (sym agrees))
