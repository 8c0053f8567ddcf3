-- ===== src/Engine/Safety/Issue.antt =====
-- `issue` of sw/src/engine.c on a valid engine.
use rv.Common.{
  ltb, if◌then◌else◌, lt→ltb, Bool-cases, length, get_elem?, set, All, length-set, lt_of_get_elem?,
  get_elem?-some, get_elem?-set_self, get_elem?-set_ne, All-set, ℕ, zero, suc, ◌+◌, ◌≤◌, ◌<◌, ◌≡◌,
  refl, sym, subst, ap, ◌∙◌, inl, inr, true, false, some, some-injective, List, [], ◌∷◌, arith,
  ℕ_discrete, All-imp,
}
use rv.Alu.{alu_exec, alu_get_cycle}
use rv.Engine.State.{Engine, ExuData, ExbData}
use rv.Engine.Issue.{is_ready, ready_from, free_from, issue_loop, issue}
use rv.Engine.Invariant.{IsValid, UnitOk, EntryOk}

-- C defines the operation of the entry, if the entry is ready.
abbrev pub Defined : ExbData → Type 0
Defined x = is_ready x ≡ true → (v : ℕ) × (alu_exec x.f10 x.vj x.vk ≡ some v)

-- An entry whose operation is defined and whose tag lies inside the reorder buffer.
abbrev Held : ℕ → List ExbData → ℕ → Type 0
Held n buf k =
    (x : ExbData) × (get_elem? buf k ≡ some x)
    × (x.qr < n)
    × ((v : ℕ) × (alu_exec x.f10 x.vj x.vk ≡ some v))

Held-clear :
    {n : ℕ} (buf : List ExbData) (k : ℕ) (x : ExbData) (j : ℕ)
    → get_elem? buf k ≡ some x
    → Held n buf j
    → Held n (set buf k (record x { busy = false })) j
Held-clear {n} buf k x j here (w, at, h, d) = elim (ℕ_discrete k j) [
  | yes same ↦
      (let gone : ExbData = record w { busy = false } in
        let one : some x ≡ some w = sym here ∙ ap (get_elem? buf) same ∙ at in
        let now =
          subst (λ m. get_elem? (set buf k gone) m ≡ some gone) same
            (get_elem?-set_self buf k gone (lt_of_get_elem? buf k here)) in
        (
          gone,
          subst (λ (y : ExbData). get_elem? (set buf k (record y { busy = false })) j ≡ some gone)
              (sym (some-injective x w one)) now,
          h,
          d,
        ))
  | no other ↦ (w, get_elem?-set_ne buf k j (record x { busy = false }) other ∙ at, h, d)
]

shift : (i j : ℕ) → i + 1 + j ≡ i + suc j
shift i j = omega arith

ready_from-Held :
    (n : ℕ) (all : List ExbData) (i : ℕ) (xs : List ExbData)
    → ((j : ℕ) → get_elem? all (i + j) ≡ get_elem? xs j)
    → All (EntryOk n) xs
    → All Defined xs
    → All (Held n all) (ready_from i xs)
unfolding ready_from
ready_from-Held n all i [] at h d = tt
ready_from-Held n all i (x ∷ xs) at h d =
    let here : get_elem? all i ≡ some x = ap (get_elem? all) (omega arith) ∙ at 0 in
    let next = λ (j : ℕ). ap (get_elem? all) (shift i j) ∙ at (suc j) in
    let rest = ready_from-Held n all (i + 1) xs next h.1 d.1 in
    elim (Bool-cases (is_ready x)) [
      | inl ready ↦ rw ready ((x, here, h.0 (ground arith), d.0 ready), rest)
      | inr waiting ↦ rw waiting rest
    ]

free_from-lt :
    (all : List ExuData) (i : ℕ) (us : List ExuData)
    → i + length us ≡ length all
    → All (λ k. k < length all) (free_from i us)
unfolding free_from
free_from-lt all i [] e = tt
free_from-lt all i (u ∷ us) e =
    let rest = free_from-lt all (i + 1) us (omega arith) in
    elim (Bool-cases u.busy) [ inl busy ↦ rw busy rest | inr free ↦ rw free (omega arith, rest) ]

issue_loop_total :
    {n : ℕ} (count : ℕ) (us ks : List ℕ) (units : List ExuData) (buf : List ExbData)
    → count ≤ length us
    → count ≤ length ks
    → All (λ k. k < length units) us
    → All (Held n buf) ks
    → All (UnitOk n) units
    → All (EntryOk n) buf
    → (units' : List ExuData) × (buf' : List ExbData) × (issue_loop count us ks units buf
        ≡ some (units', buf'))
      × All (UnitOk n) units'
      × All (EntryOk n) buf'
      × (length units' ≡ length units)
unfolding issue_loop
issue_loop_total zero us ks units buf cu ck fu hk u x = (units, buf, refl, u, x, refl)
issue_loop_total (suc c) [] ks units buf cu ck fu hk u x = absurd (omega arith)
issue_loop_total (suc c) (i ∷ us) [] units buf cu ck fu hk u x = absurd (omega arith)
issue_loop_total {n} (suc c) (i ∷ us) (k ∷ ks) units buf cu ck fu hk u x =
    let (w, at, small, defined) = hk.0 in
    let (v, runs) = defined in
    let (old, found) = get_elem?-some units i fu.0 in
    let load : ExuData = record {
      result = v;
      cycle_left = alu_get_cycle w.f10;
      busy = true;
      qr = w.qr;
    } in
    let gone : ExbData = record w { busy = false } in
    let units₁ = set units i load in
    let same = length-set units i load in
    let (units', buf', rest, u', x', l) =
      issue_loop_total c us ks units₁ (set buf k gone) (omega arith) (omega arith)
        (All-imp (λ m. m < length units) (λ m. m < length units₁) (λ m q. omega (arith, same)) us
          fu.1)
        (All-imp (Held n buf) (Held n (set buf k gone)) (λ j. Held-clear buf k w j at) ks hk.1)
        (All-set (UnitOk n) units i load u (λ _. small))
        (All-set (EntryOk n) buf k gone x (λ e. absurd (cc))) in
    (
      units',
      buf',
      rw
          (
            at,
            found,
            runs,
            lt→ltb i (length units) fu.0,
            lt→ltb k (length buf) (lt_of_get_elem? buf k at),
          )
          rest,
      u',
      x',
      l ∙ same,
    )

-- `issue` on a valid engine whose ready operations C defines does not fault and leaves a valid
-- engine.
pub issue-IsValid :
    {n : ℕ} {e : Engine}
    → IsValid n e
    → All Defined e.exb.buf
    → (count : ℕ) × (e' : Engine) × (issue e ≡ some (count, e')) × IsValid n e'
unfolding issue
issue-IsValid {n} {e} v d =
    let ready = ready_from 0 e.exb.buf in
    let free = free_from 0 e.exu.units in
    let count = if ltb (length free) (length ready) then length free else length ready in
    let (units, buf, runs, u', x', l) =
      issue_loop_total {n = n} count free ready e.exu.units e.exb.buf (ground arith) (ground arith)
        (free_from-lt e.exu.units 0 e.exu.units (omega arith))
        (ready_from-Held n e.exb.buf 0 e.exb.buf (λ j. ap (get_elem? e.exb.buf) (omega arith))
          v.entries d)
        v.units v.entries in
    (
      count,
      record e {
        exu = record (e.exu) { units = units; ready_list = free };
        exb = record { buf = buf; ready_list = ready };
      },
      rw runs,
      record {
        rob = v.rob;
        rob_size = v.rob_size;
        reg = v.reg;
        registers = v.registers;
        tags = v.tags;
        lanes = v.lanes;
        units = u';
        entries = x';
      },
    )
