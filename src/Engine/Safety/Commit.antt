-- ===== src/Engine/Safety/Commit.antt =====
-- `commit` of sw/src/engine.c on a valid engine.
use rv.Common.{
  ◌==◌, Bool-cases, All, ℕ, ◌≡◌, refl, ◌∙◌, inl, inr, Bool, not, ◌&&◌, Option, none, some, List, [],
  ◌∷◌, arith,
}
use rv.Rob.{Commit}
use rv.Rob.Total.{rob_commit_total}
use rv.Reg.{Reg, reg_write_data}
use rv.Reg.Invariant.{reg_write_data-IsValid}
use rv.Reg.Renaming.{reg_write_data-view}
use rv.Engine.State.{Engine, ExbData}
use rv.Engine.Commit.{forward_commit, retire, commit}
use rv.Engine.Invariant.{IsValid, EntryOk}

-- Forwarding changes operands only.
forward_commit-EntryOk :
    (n src v : ℕ) (xs : List ExbData)
    → All (EntryOk n) xs
    → All (EntryOk n) (forward_commit src v xs)
unfolding forward_commit
forward_commit-EntryOk n src v [] h = h
forward_commit-EntryOk n src v (x ∷ xs) h =
    let rest = forward_commit-EntryOk n src v xs h.1 in
    elim (Bool-cases (x.busy && (not x.rj && x.qj == src))) [
      | inl j ↦ rw j h
      | inr not_j ↦ elim (Bool-cases (x.busy && (not x.rk && x.qk == src))) [
        | inl k ↦ rw (not_j, k) h
        | inr not_k ↦ rw (not_j, not_k) (h.0, rest)
      ]
    ]

-- A write to the register file leaves its tags and its size alone.
write_data_frame :
    (a w : ℕ) (r : Reg) {r' : Reg} {ok : Bool}
    → reg_write_data a w r ≡ some (ok, r')
    → (r'.s ≡ r.s) × (r'.size ≡ r.size)
unfolding reg_write_data
write_data_frame a w r h = ground arith

retire-IsValid :
    {n : ℕ} (c : Option Commit) {e : Engine}
    → IsValid n e
    → (e' : Engine) × (retire c e ≡ some e') × IsValid n e' × (e'.exu ≡ e.exu) × (e'.cdb ≡ e.cdb)
unfolding retire
retire-IsValid none {e} v = (e, refl, v, refl, refl)
retire-IsValid {n} (some c) {e} v =
    let (reg, runs, _) = reg_write_data-view c.dest c.value v.reg in
    let (tags, size) = write_data_frame c.dest c.value e.reg runs in
    (
      record e { reg = reg; exb = record (e.exb) { buf = forward_commit c.src c.value e.exb.buf } },
      rw runs,
      record {
        rob = v.rob;
        rob_size = v.rob_size;
        reg = reg_write_data-IsValid c.dest c.value v.reg runs;
        registers = size ∙ v.registers;
        tags = rw tags v.tags;
        lanes = v.lanes;
        units = v.units;
        entries = forward_commit-EntryOk n c.src c.value e.exb.buf v.entries;
      },
      refl,
      refl,
    )

-- `commit` on a valid engine does not fault, leaves a valid engine, and the units and lanes.
pub commit-IsValid :
    {n : ℕ} {e : Engine}
    → IsValid n e
    → (e' : Engine) × (commit e ≡ some e') × IsValid n e' × (e'.exu ≡ e.exu) × (e'.cdb ≡ e.cdb)
unfolding commit
commit-IsValid {e = e} v =
    let (c, rob, runs, valid, size) = rob_commit_total v.rob in
    let v' : IsValid _ (record e { rob = rob }) = record {
      rob = valid;
      rob_size = size ∙ v.rob_size;
      reg = v.reg;
      registers = v.registers;
      tags = v.tags;
      lanes = v.lanes;
      units = v.units;
      entries = v.entries;
    } in
    let (e', retires, valid', x, l) = retire-IsValid c v' in (e', rw runs retires, valid', x, l)
