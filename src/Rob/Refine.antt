-- ===== src/Rob/Refine.antt =====
-- The reorder buffer of sw/src/rob.c beside the queue of `Spec`.
use mathlib.Core.Logic.{inl, inr}
use rv.Common.{
  ℕ, zero, suc, ◌+◌, ◌-◌, ◌%◌, ◌<◌, ◌≡◌, ◌≢◌, ◌⊎◌, refl, ap, ap₂, sym, subst, ◌∙◌, arith, ◌==◌,
  if◌then◌else◌, true, false, Bool-cases, All, Option, none, some, ◌>>=◌, List, [], ◌∷◌, ◌++◌, map,
  length, get_or, set, next_cases, length-set, get_or-set_self, get_or-set_ne, get_elem?-eq-get_or,
}
use rv.Rob.{Rob, RobData, rob_issue, rob_write, rob_commit}
use rv.Rob.Invariant.{IsValid}
use rv.Rob.Spec.{Entry, Queue, Op, Reply, complete}
use rv.Rob.Spec

abbrev pub junk : RobData
junk = record { dest = 0; value = 0; done = false }

abbrev pub entry : ℕ → RobData → Entry
entry i e = record { tag = i; dest = e.dest; result = if e.done then some e.value else none }

module _ (es : List RobData) (size : ℕ) where
  -- The `n` entries from index `h` on, going round at `size`.
  abbrev pub window : ℕ → ℕ → List Entry
  window h zero = []
  window h (suc n) = entry h (get_or es h junk) ∷ window ((h + 1) % size) n

  pub length-window : (h n : ℕ) → length (window h n) ≡ n
  length-window h zero = refl
  length-window h (suc n) = ap suc (length-window ((h + 1) % size) n)

abbrev pub contents : Rob → Queue
contents r = record { next = r.issue_ptr; pending = window r.entries r.size r.commit_ptr r.cnt }

-- Writing one entry behind a window extends the window by it.
window-set :
    (es : List RobData) (size : ℕ) (e : RobData) (i n h : ℕ)
    → length es ≡ size
    → h < size
    → i < size
    → n < size
    → (i ≡ h + n) ⊎ (i + size ≡ h + n)
    → window (set es i e) size h (suc n) ≡ window es size h n ++ (entry i e ∷ [])
window-set es size e i zero h l hh hi hn at =
    let same : h ≡ i = omega arith in
    ap₂ (λ a x. entry a x ∷ []) same
      (ap (λ k. get_or (set es i e) k junk) same ∙ get_or-set_self es i e junk (omega arith))
window-set es size e i (suc n) h l hh hi hn at =
    ap₂ ◌∷◌ (ap (entry h) (get_or-set_ne es i h e junk (omega arith))) (
      window-set es size e i n ((h + 1) % size) l (omega (arith, next_cases h size hh)) hi
        (omega arith) (omega (arith, next_cases h size hh)))

-- A result written to an index completes the entry with that tag, wherever it stands.
window-complete :
    (es : List RobData) (size a v n h : ℕ)
    → a < length es
    → window (set es a (record (get_or es a junk) { value = v; done = true })) size h n
      ≡ map (complete a v) (window es size h n)
window-complete es size a v zero h la = refl
window-complete es size a v (suc n) h la =
    ap₂ ◌∷◌ (head (Bool-cases (h == a))) (window-complete es size a v n ((h + 1) % size) la)
  where
    new : RobData
    new = record (get_or es a junk) { value = v; done = true }

    head :
        ((h == a) ≡ true) ⊎ ((h == a) ≡ false)
        → entry h (get_or (set es a new) h junk) ≡ complete a v (entry h (get_or es h junk))
    head (inl same) = ground (arith, get_or-set_self es a new junk la)
    head (inr other) = ground (arith, get_or-set_ne es a h new junk)

-- `Spec` matches on the list, the code tests `cnt == 0`.
window_of_pos :
    (es : List RobData) (size h n : ℕ)
    → n ≢ 0
    → window es size h n ≡ entry h (get_or es h junk) ∷ window es size ((h + 1) % size) (n - 1)
window_of_pos es size h zero p = absurd (p refl)
window_of_pos es size h (suc n) p = ap (λ k. window es size h (suc k)) (omega arith)

-- A client's call, with what the client sees of it.
pub serve : Op → Rob → Option (Reply × Rob)
serve (Op.issue dest) r = do
  (ok, out, r') ← rob_issue dest (some 0) r
  some (Reply.issued (if ok then out else none), r')
serve (Op.write tag value) r = do (_, r') ← rob_write tag value r; some (Reply.written, r')
serve Op.commit r = do (c, r') ← rob_commit r; some (Reply.committed c, r')

-- Results are written to entries of the buffer only.
abbrev pub InRange : ℕ → Op → Type 0
InRange size (Op.issue dest) = Unit
InRange size (Op.write tag value) = tag < size
InRange size Op.commit = Unit

-- One call answered without a fault, as the queue answers it.
pub record Served (r : Rob) (op : Op) : Type 0 where
  pub reply : Reply
  pub next : Rob
  pub runs : serve op r ≡ some (reply, next)
  pub agrees : (reply, contents next) ≡ Spec.step r.size op (contents r)
  pub same_size : next.size ≡ r.size
  pub valid : IsValid next

abbrev fresh : ℕ → Rob → RobData
fresh dest r = record (get_or r.entries r.issue_ptr junk) { dest = dest; done = false }

abbrev issued : ℕ → Rob → Rob
issued dest r = record r {
  entries = set r.entries r.issue_ptr (fresh dest r);
  issue_ptr = (r.issue_ptr + 1) % r.size;
  cnt = r.cnt + 1;
}

abbrev written : ℕ → ℕ → Rob → RobData
written tag value r = record (get_or r.entries tag junk) { value = value; done = true }

abbrev oldest : Rob → RobData
oldest r = get_or r.entries r.commit_ptr junk

issue-Served : (dest : ℕ) {r : Rob} → IsValid r → Served r (Op.issue dest)
unfolding serve rob_issue Spec.step Spec.issue_step
issue-Served dest {r} v = elim (Bool-cases (r.cnt == r.size)) [
  | inl full ↦ record {
    reply = Reply.issued none;
    next = r;
    runs = ground arith;
    agrees = ground (arith, length-window r.entries r.size r.commit_ptr r.cnt);
    same_size = refl;
    valid = v;
  }
  | inr free ↦ record {
    reply = Reply.issued (some r.issue_ptr);
    next = issued dest r;
    runs = ground (arith, get_elem?-eq-get_or r.entries r.issue_ptr junk);
    agrees = ground (
      arith,
      length-window r.entries r.size r.commit_ptr r.cnt,
      window-set r.entries r.size (fresh dest r) r.issue_ptr r.cnt r.commit_ptr,
    );
    same_size = refl;
    valid = ground (
      arith,
      length-set r.entries r.issue_ptr (fresh dest r),
      next_cases r.issue_ptr r.size v.issue_in,
    );
  }
]

write-Served : (tag value : ℕ) {r : Rob} → IsValid r → tag < r.size → Served r (Op.write tag value)
unfolding serve rob_write Spec.step Spec.write_step
write-Served tag value {r} v h = record {
  reply = Reply.written;
  next = record r { entries = set r.entries tag (written tag value r) };
  runs = ground (arith, get_elem?-eq-get_or r.entries tag junk);
  agrees = ground (arith, window-complete r.entries r.size tag value r.cnt r.commit_ptr);
  same_size = refl;
  valid = ground (arith, length-set r.entries tag (written tag value r));
}

commit-Served : {r : Rob} → IsValid r → Served r Op.commit
unfolding serve rob_commit Spec.step Spec.commit_step
commit-Served {r} v = elim (Bool-cases (r.cnt == 0)) [
  | inl empty ↦ record {
    reply = Reply.committed none;
    next = r;
    runs = ground arith;
    agrees = ground arith;
    same_size = refl;
    valid = v;
  }
  | inr some_left ↦ elim (Bool-cases (oldest r).done) [
    | inl ready ↦ record {
      reply =
          Reply.committed (
            some (record { src = r.commit_ptr; dest = (oldest r).dest; value = (oldest r).value }));
      next = record r { commit_ptr = (r.commit_ptr + 1) % r.size; cnt = r.cnt - 1 };
      runs = ground (arith, get_elem?-eq-get_or r.entries r.commit_ptr junk);
      agrees = ground (arith, window_of_pos r.entries r.size r.commit_ptr r.cnt);
      same_size = refl;
      valid = ground (arith, next_cases r.commit_ptr r.size v.commit_in);
    }
    | inr waiting ↦ record {
      reply = Reply.committed none;
      next = r;
      runs = ground (arith, get_elem?-eq-get_or r.entries r.commit_ptr junk);
      agrees = ground (arith, window_of_pos r.entries r.size r.commit_ptr r.cnt);
      same_size = refl;
      valid = v;
    }
  ]
]

-- Every call on a valid buffer runs without a fault, answers as the queue does, and leaves a valid
-- buffer that holds the queue's new state, if results are written inside the buffer.
pub serve_refines : (op : Op) {r : Rob} → IsValid r → InRange r.size op → Served r op
serve_refines (Op.issue dest) v h = issue-Served dest v
serve_refines (Op.write tag value) v h = write-Served tag value v h
serve_refines Op.commit v h = commit-Served v

-- A client's calls in order; `none` as soon as one faults.
pub run : List Op → Rob → Option (List Reply × Rob)
run [] r = some ([], r)
run (op ∷ ops) r = do
  (reply, r') ← serve op r
  (replies, last) ← run ops r'
  some (reply ∷ replies, last)

-- From a valid reorder buffer, no sequence of issues, writes inside the buffer and commits faults,
-- and its answers and its final content are those of a bounded queue.
pub run_refines :
    (ops : List Op) {r : Rob}
    → IsValid r
    → All (InRange r.size) ops
    → (last : Rob) × (run ops r ≡ some ((Spec.run r.size ops (contents r)).0, last))
      × (contents last ≡ (Spec.run r.size ops (contents r)).1)
      × IsValid last
unfolding run Spec.run
run_refines [] {r} v h = (r, refl, refl, v)
run_refines (op ∷ ops) {r} v h =
    let s = serve_refines op v h.0 in
    let ih = run_refines ops s.valid (subst (λ n. All (InRange n) ops) (sym s.same_size) h.1) in
    (ih.0, rw (s.runs, ih.1, ← s.agrees, s.same_size), rw (ih.2, ← s.agrees, s.same_size), ih.3)
