-- ===== src/Rob/Tests.antt =====
-- The reorder buffer on concrete buffers.
use rv.Common.{
  ℕ, ◌≡◌, ◌↔◌, ◌++◌, arith, All, inl, inr, refl, Bool, true, false, none, some, List, [], ◌∷◌,
}
use rv.Rob.{Rob, RobData, rob_create, rob_write, rob_read, rob_flush, rob_full}
use rv.Rob.Invariant.{IsValid, rob_create-IsValid}
use rv.Rob.Spec.{Op, Reply}
use rv.Rob.Refine.{contents, run, run_refines, InRange}
use rv.Rob.Order.{keys, accepted, retired, run_in_order}
use rv.Rob.Flush.{rob_flush_wrapped}
use rv.Rob.Bounds.{rob_fault_iff}
use rv.Rob.Spec

abbrev slot : ℕ → ℕ → Bool → RobData
slot dest value done = record { dest = dest; value = value; done = done }

-- The window goes round the end: the entries 3 and 0.
abbrev wrapped : Rob
wrapped = record {
  commit_ptr = 3;
  issue_ptr = 1;
  size = 4;
  cnt = 2;
  entries = slot 7 0 false ∷ slot 0 0 false ∷ slot 0 0 false ∷ slot 5 42 true ∷ [];
}

abbrev straight : Rob
straight = record {
  commit_ptr = 1;
  issue_ptr = 3;
  size = 4;
  cnt = 2;
  entries = slot 7 0 false ∷ slot 9 1 true ∷ slot 8 0 false ∷ slot 5 42 true ∷ [];
}

wrapped-IsValid : IsValid wrapped
wrapped-IsValid = record {
  room = refl;
  small = omega arith;
  commit_in = omega arith;
  issue_in = omega arith;
  cnt_le = omega arith;
  window = inr refl;
}

straight-IsValid : IsValid straight
straight-IsValid = record {
  room = refl;
  small = omega arith;
  commit_in = omega arith;
  issue_in = omega arith;
  cnt_le = omega arith;
  window = inl refl;
}

-- The oldest entry leaves, a new one comes, the other gets its result and leaves too.
abbrev calls : List Op
calls = Op.commit ∷ Op.issue 11 ∷ Op.write 0 6 ∷ Op.commit ∷ Op.commit ∷ []

calls-InRange : All (InRange 4) calls
calls-InRange = (tt, (tt, (omega arith, (tt, (tt, tt)))))

run-calls :
    (Spec.run 4 calls (contents wrapped)).0
    ≡ Reply.committed (some (record { src = 3; dest = 5; value = 42 }))
      ∷ Reply.issued (some 1)
      ∷ Reply.written
      ∷ Reply.committed (some (record { src = 0; dest = 7; value = 6 }))
      ∷ Reply.committed none
      ∷ []
unfolding Spec.run Spec.commit_step Spec.issue_step Spec.write_step
run-calls = refl

run_refines_example :
    (last : Rob) × (run calls wrapped ≡ some ((Spec.run 4 calls (contents wrapped)).0, last))
    × (contents last ≡ (Spec.run 4 calls (contents wrapped)).1)
    × IsValid last
run_refines_example = run_refines calls wrapped-IsValid calls-InRange

run_in_order_example :
    (rs : List Reply) × (last : Rob) × (run calls wrapped ≡ some (rs, last))
    × (keys (contents wrapped) ++ accepted calls rs ≡ retired rs ++ keys (contents last))
run_in_order_example = run_in_order calls wrapped-IsValid calls-InRange

rob_create_example : IsValid (rob_create 4 (some wrapped.entries) (record wrapped { size = 0 })).1
rob_create_example =
    rob_create-IsValid 4 wrapped.entries (record wrapped { size = 0 }) refl (omega arith)
      (omega arith) refl

rob_flush_wrapped_example : ((rob_flush wrapped).cnt ≡ 4) × (rob_full (rob_flush wrapped) ≡ true)
rob_flush_wrapped_example = rob_flush_wrapped wrapped-IsValid refl

rob_fault_iff_example :
    ((rob_write 4 1 wrapped ≡ none) ↔ (4 ≡ wrapped.size))
    × ((rob_read 4 0 wrapped ≡ none) ↔ (4 ≡ wrapped.size))
rob_fault_iff_example = rob_fault_iff 4 1 0 wrapped-IsValid
