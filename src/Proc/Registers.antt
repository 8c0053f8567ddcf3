-- ===== src/Proc/Registers.antt =====
-- The registers of sw/ELE749_projet1-develop/src/procState.c.
use rv.Common.{
  zero, suc, [], ◌∷◌, ℕ, ◌≡◌, ◌≤◌, ◌==◌, ◌&&◌, if◌then◌else◌, ltb, arith, refl, Bool-cases, inl,
  inr, set, get_elem?, get_elem?-set_self, get_elem?-set_ne, Bool, some, List, length-set,
}
use rv.Proc.{proc_regsize, ProcState, proc_write_reg, proc_read_reg, proc_destroy, clear_first}
use rv.Proc.Invariant.{IsValid}

-- A register that can be written.
abbrev pub writable : ℕ → Bool
writable reg = ltb 0 reg && ltb reg proc_regsize

-- `procWriteReg` on a valid state does not fault and leaves a valid state. It writes its register,
-- if that is one of 1 to 15, and returns the value; otherwise it returns 0. Every other register
-- reads as before.
pub proc_read_reg-write_reg :
    (reg val : ℕ) {p : ProcState} {b : List ℕ}
    → IsValid p b
    → (p' : ProcState) × (proc_write_reg reg val p ≡ some (if writable reg then val else 0, p'))
      × ((k : ℕ)
          → proc_read_reg k p'
            ≡ (if writable reg && (reg == k) then some val else proc_read_reg k p))
      × IsValid p' b
unfolding proc_write_reg proc_read_reg
proc_read_reg-write_reg reg val {p} {b} v = elim (Bool-cases (writable reg)) [
  | inl can ↦ (
    record p { x = set p.x reg val },
    ground (arith, v.registers),
    (λ k. elim (Bool-cases (reg == k)) [
      | inl same ↦ ground (arith, get_elem?-set_self p.x reg val, v.registers)
      | inr other ↦ ground (arith, get_elem?-set_ne p.x reg k val)
    ]),
    ground (arith, length-set p.x reg val, get_elem?-set_ne p.x reg 0 val),
  )
  | inr cannot ↦ (p, ground arith, (λ k. ground arith), v)
]

get_elem?-clear_first :
    (n i : ℕ) (xs : List ℕ) → n ≤ i → get_elem? (clear_first n xs) i ≡ get_elem? xs i
unfolding clear_first
get_elem?-clear_first zero i xs h = refl
get_elem?-clear_first (suc n) i [] h = refl
get_elem?-clear_first (suc n) zero (x ∷ xs) h = absurd (omega arith)
get_elem?-clear_first (suc n) (suc i) (x ∷ xs) h = get_elem?-clear_first n i xs (omega arith)

-- `procDestroy` leaves the registers from 4 on as they are.
pub proc_destroy_registers :
    (reg : ℕ) (p : ProcState) → 4 ≤ reg → proc_read_reg reg (proc_destroy p) ≡ proc_read_reg reg p
unfolding proc_read_reg proc_destroy
proc_destroy_registers reg p h = rw (get_elem?-clear_first 4 reg p.x h) refl
