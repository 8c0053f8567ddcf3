-- ===== src/Rv32/Safety/Sound.antt =====
-- Results that leave a valid processor, for sw/ELE749_projet1-develop/src/procState.c.
use rv.Common.{
  ◌==◌, if◌then◌else◌, ◌>>=◌, >>=-eq-some, length, get_elem?, store, length-set, ℕ, zero, suc, ◌+◌,
  ◌≡◌, refl, sym, subst, ap, ◌∙◌, Bool, true, false, Option, none, some, some-injective, List,
  arith,
}
use rv.Proc.{proc_memsize, ProcState, proc_get_pc, proc_set_pc, proc_update_pc, proc_write_mem}
use rv.Mem.{write_loop, host_index, cell}
use rv.Proc.Invariant.{IsValid, block-IsValid}
use rv.Proc.Registers.{proc_read_reg-write_reg}
use rv.Rv32.Data.{put, move}

-- A processor that is valid, for some contents of its memory.
abbrev pub Valid : ProcState → Type 0
Valid p = (b : List ℕ) × IsValid p b

-- Where the result is defined, it is valid.
abbrev pub Sound : Option ProcState → Type 0
Sound r = (p : ProcState) → r ≡ some p → Valid p

pub Sound-bind :
    {A : Type 0} (r : Option A) {f : A → Option ProcState}
    → ((a : A) → r ≡ some a → Sound (f a))
    → Sound (r >>= f)
Sound-bind none h p e = cc
Sound-bind (some a) h p e = h a refl p e

pub Sound-then :
    {r : Option ProcState} {f : ProcState → Option ProcState}
    → Sound r
    → ((p : ProcState) → Valid p → Sound (f p))
    → Sound (r >>= f)
Sound-then {r} s h = Sound-bind r (λ p e. h p (s p e))

pub Sound-if : (t : Bool) {r s : Option ProcState} → Sound r → Sound s → Sound (if t then r else s)
Sound-if true a b = a
Sound-if false a b = b

pub Sound-some : {p : ProcState} → Valid p → Sound (some p)
Sound-some {p} v q e = subst Valid (some-injective _ _ e) v

pub put-Sound : (rd val : ℕ) {p : ProcState} → Valid p → Sound (put rd val p)
put-Sound rd val {p} (b, v) q e =
    let (p', writes, _, kept) = proc_read_reg-write_reg rd val v in
    subst Valid (some-injective _ _ (rw writes refl ∙ e)) (b, kept)

pub proc_set_pc-Valid : (at : ℕ) {p : ProcState} → Valid p → Valid (proc_set_pc at p).1
unfolding proc_set_pc
proc_set_pc-Valid at (b, v) = (
  b,
  record {
    registers = v.registers;
    zero_value = v.zero_value;
    pc_in = omega arith;
    block = v.block;
    room = v.room;
  },
)

pub move-Valid : (offset : ℕ) {p : ProcState} → Valid p → Valid (move offset p)
unfolding proc_update_pc proc_get_pc
move-Valid offset v = proc_set_pc-Valid _ v

length-store : (k v : ℕ) (b b' : List ℕ) → store b k v ≡ some b' → length b' ≡ length b
length-store k v b b' e = ground (arith, length-set b k v)

module _ (little : Bool) (size addr n : ℕ) where
  length-write_loop :
      (left i : ℕ) (d b b' : List ℕ)
      → write_loop little size addr n left i d b ≡ some b'
      → length b' ≡ length b
  unfolding write_loop
  length-write_loop zero i d b b' e = ap length (sym (some-injective _ _ e))
  length-write_loop (suc left) i d b b' e =
      let (v, _, e₁) = >>=-eq-some (get_elem? d (host_index little n i)) _ e in
      let (k, _, e₂) = >>=-eq-some (cell size addr i) _ e₁ in
      let (c, stored, e₃) = >>=-eq-some (store b k v) _ e₂ in
      length-write_loop left (i + 1) d c b' e₃ ∙ length-store k v b c stored

pub proc_write_mem-Valid :
    (little : Bool) (addr n : ℕ) (d : List ℕ) {p : ProcState} {r : ℕ × ProcState}
    → Valid p
    → proc_write_mem little addr (some d) n p ≡ some r
    → Valid r.1
unfolding proc_write_mem
proc_write_mem-Valid little addr zero d {p} (b, v) e =
    subst (λ (r : ℕ × ProcState). Valid r.1) (some-injective _ _ e) (b, v)
proc_write_mem-Valid little addr (suc n) d {p} {r} (b, v) e =
    let some_bytes : (suc n == 0) ≡ false = ground arith in
    let loop = write_loop little proc_memsize addr (suc n) (suc n) 0 d b in
    let runs : proc_write_mem little addr (some d) (suc n) p
        ≡ (loop >>= λ b'. some (suc n, record p { mem = some b' })) =
      rw (some_bytes, v.block) refl in
    let (b', ends, same) = >>=-eq-some loop _ (sym runs ∙ e) in
    let kept = length-write_loop little proc_memsize addr (suc n) (suc n) 0 d b b' ends in
    subst (λ (r : ℕ × ProcState). Valid r.1) (some-injective _ _ same) (b', block-IsValid b' v kept)
