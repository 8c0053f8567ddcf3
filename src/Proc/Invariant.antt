-- ===== src/Proc/Invariant.antt =====
-- The valid states of sw/ELE749_projet1-develop/src/procState.c.
use rv.Common.{
  inl, inr, zero, suc, replicate, ℕ, ◌≡◌, ◌<◌, arith, refl, length, length-map, get_elem?, none,
  some, List, ◌∙◌, ◌⊎◌, map,
}
use rv.Proc.{proc_memsize, proc_regsize, ProcState, proc_init}
use rv.Int.{pos}

-- Register 0 is zero, the counter lies inside the memory, and the memory is there.
pub record IsValid (p : ProcState) (b : List ℕ) : Type 0 where
  pub registers : length p.x ≡ proc_regsize
  pub zero_value : get_elem? p.x 0 ≡ some 0
  pub pc_in : p.pc < proc_memsize
  pub block : p.mem ≡ some b
  pub room : length b ≡ proc_memsize

-- `procInit`, with a whole block of memory from `calloc` or from an earlier call, returns 0 and
-- gives a valid state with the counter and all registers 0.
pub proc_init-IsValid :
    (b : List ℕ) (p : ProcState)
    → length b ≡ proc_memsize
    → ((p.mem ≡ none) ⊎ (p.mem ≡ some b))
    → (p' : ProcState) × (b' : List ℕ) × (proc_init (some b) p ≡ (pos 0, p'))
      × IsValid p' b'
      × (p'.pc ≡ 0)
      × ((i : ℕ) → i < proc_regsize → get_elem? p'.x i ≡ some 0)
unfolding proc_init
proc_init-IsValid b p l which = elim which [
  | inl e ↦ (
    record { pc = 0; x = replicate 16 0; mem = some b },
    b,
    rw e refl,
    record { registers = refl; zero_value = refl; pc_in = omega arith; block = refl; room = l },
    refl,
    get_elem?-replicate 16,
  )
  | inr e ↦ (
    record { pc = 0; x = replicate 16 0; mem = some (map (λ v. 0) b) },
    map (λ v. 0) b,
    rw e refl,
    record {
      registers = refl;
      zero_value = refl;
      pc_in = omega arith;
      block = refl;
      room = length-map (λ v. 0) b ∙ l;
    },
    refl,
    get_elem?-replicate 16,
  )
]
  where
    get_elem?-replicate : (n i : ℕ) → i < n → get_elem? (replicate {A = ℕ} n 0) i ≡ some 0
    get_elem?-replicate zero i h = absurd (omega arith)
    get_elem?-replicate (suc n) zero h = refl
    get_elem?-replicate (suc n) (suc i) h = get_elem?-replicate n i (omega arith)

-- A valid state with another memory of the same size is valid.
pub block-IsValid :
    {p : ProcState} {b : List ℕ} (b' : List ℕ)
    → IsValid p b
    → length b' ≡ length b
    → IsValid (record p { mem = some b' }) b'
block-IsValid b' v l = record {
  registers = v.registers;
  zero_value = v.zero_value;
  pc_in = v.pc_in;
  block = refl;
  room = l ∙ v.room;
}
