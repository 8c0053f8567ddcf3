-- ===== src/Engine/Safety/WriteBack.antt =====
-- `write_back` and `execute` of sw/src/engine.c on a valid engine.
use rv.Common.{
  lt→ltb, Bool-cases, length, get_elem?, set, All, length-set, length-map, lt_of_get_elem?,
  get_elem?-set_self, get_elem?-set_ne, All-set, ℕ, suc, ◌+◌, ◌≤◌, ◌<◌, min, ◌≡◌, refl, sym, subst,
  ap, ◌∙◌, inl, inr, true, false, some, some-injective, List, [], ◌∷◌, map, arith, ℕ_discrete,
  All-imp, All-map,
}
use rv.Rob.{Rob}
use rv.Rob.Invariant.{IsValid as RobIsValid}
use rv.Rob.Total.{rob_write_total}
use rv.Engine.State.{Engine, CdbData, ExuData, ExbData}
use rv.Engine.WriteBack.{
  store_lanes, reset_lane, is_done, done_from, put_results, snoop, write_back, tick, execute,
}
use rv.Engine.Invariant.{IsValid, LaneOk, UnitOk, EntryOk}

store_lanes_total :
    {n : ℕ} (ls : List CdbData) {r : Rob}
    → All (LaneOk n) ls
    → RobIsValid r
    → r.size ≡ n
    → (r' : Rob) × (store_lanes ls r ≡ some r') × RobIsValid r' × (r'.size ≡ n)
unfolding store_lanes
store_lanes_total [] {r} h v s = (r, refl, v, s)
store_lanes_total (l ∷ ls) {r} h v s = elim (Bool-cases l.valid) [
  | inl valid ↦
      (let (r₁, runs, v₁, s₁) = rob_write_total l.qr l.result v (omega (arith, h.0 valid)) in
        let (r', rest, v', s') = store_lanes_total ls h.1 v₁ (s₁ ∙ s) in
        (r', rw (valid, runs) rest, v', s'))
  | inr invalid ↦
      (let (r', rest, v', s') = store_lanes_total ls h.1 v s in (r', rw invalid rest, v', s'))
]

-- A unit whose tag lies inside the reorder buffer.
abbrev Tagged : ℕ → List ExuData → ℕ → Type 0
Tagged n units k = (u : ExuData) × (get_elem? units k ≡ some u) × (u.qr < n)

Tagged-clear :
    {n : ℕ} (units : List ExuData) (k : ℕ) (u : ExuData) (j : ℕ)
    → get_elem? units k ≡ some u
    → Tagged n units j
    → Tagged n (set units k (record u { busy = false })) j
Tagged-clear {n} units k u j here (w, at, h) = elim (ℕ_discrete k j) [
  | yes same ↦ (
    record u { busy = false },
    (let gone = record u { busy = false } in
        subst (λ m. get_elem? (set units k gone) m ≡ some gone) same
          (get_elem?-set_self units k gone (lt_of_get_elem? units k here))),
    (let one : some u ≡ some w = sym here ∙ ap (get_elem? units) same ∙ at in
        subst (λ x. x.qr < n) (sym (some-injective u w one)) h),
  )
  | no other ↦ (w, get_elem?-set_ne units k j (record u { busy = false }) other ∙ at, h)
]

shift : (i j : ℕ) → i + 1 + j ≡ i + suc j
shift i j = omega arith

-- `us` is what stands in `all` from index `i` on.
done_from-Tagged :
    (n : ℕ) (all : List ExuData) (i : ℕ) (us : List ExuData)
    → ((j : ℕ) → get_elem? all (i + j) ≡ get_elem? us j)
    → All (UnitOk n) us
    → All (Tagged n all) (done_from i us)
unfolding done_from
done_from-Tagged n all i [] at h = tt
done_from-Tagged n all i (u ∷ us) at h =
    let here : get_elem? all i ≡ some u = ap (get_elem? all) (omega arith) ∙ at 0 in
    let next = λ (j : ℕ). ap (get_elem? all) (shift i j) ∙ at (suc j) in
    let rest = done_from-Tagged n all (i + 1) us next h.1 in
    elim (Bool-cases (is_done u)) [
      | inl done ↦ rw done ((u, here, h.0 (ground arith)), rest)
      | inr not_done ↦ rw not_done rest
    ]

-- The units and lanes after the results have been put out.
put_results_total :
    {n : ℕ} (i : ℕ) (ks : List ℕ) (lanes : List CdbData) (units : List ExuData)
    → i + length ks ≤ length lanes
    → All (Tagged n units) ks
    → All (LaneOk n) lanes
    → All (UnitOk n) units
    → (lanes' : List CdbData) × (units' : List ExuData) × (put_results i ks lanes units
        ≡ some (lanes', units'))
      × All (LaneOk n) lanes'
      × All (UnitOk n) units'
      × (length lanes' ≡ length lanes)
      × (length units' ≡ length units)
unfolding put_results
put_results_total i [] lanes units room t l u = (lanes, units, refl, l, u, refl, refl)
put_results_total {n} i (k ∷ ks) lanes units room t l u =
    let (w, at, small) = t.0 in
    let lane : CdbData = record { qr = w.qr; result = w.result; valid = true } in
    let gone : ExuData = record w { busy = false } in
    let lanes₁ = set lanes i lane in
    let units₁ = set units k gone in
    let k_in = lt_of_get_elem? units k at in
    let (lanes', units', runs, l', u', ll, lu) =
      put_results_total (i + 1) ks lanes₁ units₁ (omega (arith, length-set lanes i lane))
        (All-imp (Tagged n units) (Tagged n units₁) (λ j. Tagged-clear units k w j at) ks t.1)
        (All-set (LaneOk n) lanes i lane l (λ _. small))
        (All-set (UnitOk n) units k gone u (λ e. absurd (cc))) in
    (
      lanes',
      units',
      rw (at, lt→ltb i (length lanes) (omega arith), lt→ltb k (length units) k_in) runs,
      l',
      u',
      ll ∙ length-set lanes i lane,
      lu ∙ length-set units k gone,
    )

snoop-EntryOk :
    (n : ℕ) (lanes : List CdbData) (x : ExbData) → EntryOk n x → EntryOk n (snoop lanes x)
snoop-EntryOk n lanes x h b = ground (arith, h)

-- There is a lane for every finished unit.
abbrev pub FewDone : Engine → Type 0
FewDone e = length (done_from 0 e.exu.units) ≤ length e.cdb.lane

-- `write_back` on a valid engine, with a lane for every finished unit, does not fault and leaves a
-- valid engine.
pub write_back-IsValid :
    {n : ℕ} {e : Engine}
    → IsValid n e
    → FewDone e
    → (e' : Engine) × (write_back e ≡ some e') × IsValid n e'
unfolding write_back
write_back-IsValid {n} {e} v few =
    let (rob, stores, rob_valid, rob_size) =
      store_lanes_total e.cdb.lane v.lanes v.rob v.rob_size in
    let done = done_from 0 e.exu.units in
    let clean = map reset_lane e.cdb.lane in
    let (lanes, units, puts, lanes_ok, units_ok, ll, lu) =
      put_results_total 0 done clean e.exu.units
        (omega (arith, length-map reset_lane e.cdb.lane, few))
        (done_from-Tagged n e.exu.units 0 e.exu.units
          (λ j. ap (get_elem? e.exu.units) (omega arith)) v.units)
        (All-map (LaneOk n) (LaneOk n) reset_lane (λ l h q. absurd (cc)) e.cdb.lane v.lanes)
        v.units in
    (
      record e {
        rob = rob;
        cdb = record { nb_active_lanes = min (length e.cdb.lane) (length done); lane = lanes };
        exu = record (e.exu) { units = units; done_list = done };
        exb = record (e.exb) { buf = map (snoop lanes) e.exb.buf };
      },
      rw (stores, puts),
      record {
        rob = rob_valid;
        rob_size = rob_size;
        reg = v.reg;
        registers = v.registers;
        tags = v.tags;
        lanes = lanes_ok;
        units = units_ok;
        entries =
            All-map (EntryOk n) (EntryOk n) (snoop lanes) (snoop-EntryOk n lanes) e.exb.buf
              v.entries;
      },
    )

tick-UnitOk : (n : ℕ) (u : ExuData) → UnitOk n u → UnitOk n (tick u)
tick-UnitOk n u h b = ground (arith, h)

-- `execute` keeps a valid engine valid.
pub execute-IsValid : {n : ℕ} {e : Engine} → IsValid n e → IsValid n (execute e)
unfolding execute
execute-IsValid {n} {e} v = record {
  rob = v.rob;
  rob_size = v.rob_size;
  reg = v.reg;
  registers = v.registers;
  tags = v.tags;
  lanes = v.lanes;
  units = All-map (UnitOk n) (UnitOk n) tick (tick-UnitOk n) e.exu.units v.units;
  entries = v.entries;
}
