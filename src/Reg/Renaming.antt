-- ===== src/Reg/Renaming.antt =====
-- A valid register file as a function: each register holds a value, or waits for a tag.
use rv.Common.{
  ℕ, ◌≡◌, arith, ◌==◌, ◌&&◌, if◌then◌else◌, Bool, Bool-cases, inl, inr, false, some, get_or, set,
  ltb, get_or-set_self, get_or-set_ne, Option, true, ◌<◌, ◌>>=◌, ◌≤◌, get_elem?-eq-get_or,
}
use rv.Reg.{Reg, reg_write_data, reg_read_src, reg_write_src, reg_read_data}
use rv.Reg.Invariant.{IsValid}

pub data Operand : Type 0 where
  ready : ℕ → Operand
  waiting : ℕ → Operand

abbrev pub view : Reg → ℕ → Operand
view r a = if get_or r.d a false then waiting (get_or r.s a 0) else ready (get_or r.x a 0)

-- A register that can be written.
abbrev pub writable : Reg → ℕ → Bool
writable r a = ltb 0 a && ltb a r.size

-- `reg_write_data` on a valid file does not fault. It makes its register ready with the value and
-- touches no other; register 0 and registers outside the file are left alone, and the call says so.
pub reg_write_data-view :
    (a w : ℕ) {r : Reg}
    → IsValid r
    → (r' : Reg) × (reg_write_data a w r ≡ some (writable r a, r'))
      × ((b : ℕ) → view r' b ≡ (if writable r a && (a == b) then ready w else view r b))
unfolding reg_write_data
reg_write_data-view a w {r} v = elim (Bool-cases (writable r a)) [
  | inl can ↦ (
    record r { x = set r.x a w; d = set r.d a false },
    ground arith,
    λ b. elim (Bool-cases (a == b)) [
      | inl same ↦ ground (arith, get_or-set_self r.d a false false, get_or-set_self r.x a w 0)
      | inr other ↦ ground (arith, get_or-set_ne r.d a b false false, get_or-set_ne r.x a b w 0)
    ],
  )
  | inr cannot ↦ (r, ground arith, λ b. ground arith)
]

-- `reg_write_src` on a valid file does not fault. It makes its register wait for the tag and
-- touches no other; register 0 and registers outside the file are left alone, and the call says so.
pub reg_write_src-view :
    (a t : ℕ) {r : Reg}
    → IsValid r
    → (r' : Reg) × (reg_write_src a t r ≡ some (writable r a, r'))
      × ((b : ℕ) → view r' b ≡ (if writable r a && (a == b) then waiting t else view r b))
unfolding reg_write_src
reg_write_src-view a t {r} v = elim (Bool-cases (writable r a)) [
  | inl can ↦ (
    record r { s = set r.s a t; d = set r.d a true },
    ground arith,
    λ b. elim (Bool-cases (a == b)) [
      | inl same ↦ ground (arith, get_or-set_self r.d a true false, get_or-set_self r.s a t 0)
      | inr other ↦ ground (arith, get_or-set_ne r.d a b true false, get_or-set_ne r.s a b t 0)
    ],
  )
  | inr cannot ↦ (r, ground arith, λ b. ground arith)
]

-- What a client that reads the source of a register, and its value if it is not dirty, finds out.
abbrev pub fetch : ℕ → Reg → Option Operand
fetch a r = do
  (dirty, tag) ← reg_read_src a (some 0) r
  (_, v) ← reg_read_data a (some 0) r
  t ← tag
  x ← v
  some (if dirty then waiting t else ready x)

-- Reading a register of a valid file gives its view; outside the file the reads return 0 and store
-- nothing.
pub reg_read_view :
    (a : ℕ) {r : Reg}
    → IsValid r
    → (a < r.size → fetch a r ≡ some (view r a))
      × (r.size ≤ a
          → (reg_read_src a (some 0) r ≡ some (false, some 0))
            × (reg_read_data a (some 0) r ≡ some (false, some 0)))
unfolding reg_read_src reg_read_data
reg_read_view a {r} v = (
  λ h. ground (
    arith,
    get_elem?-eq-get_or r.s a 0,
    get_elem?-eq-get_or r.x a 0,
    get_elem?-eq-get_or r.d a false,
  ),
  λ h. ground arith,
)
