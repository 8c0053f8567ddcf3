-- ===== src/Reg/Invariant.antt =====
-- The representation invariant of `struct reg`, sw/src/reg.c: register 0 is zero and not waited for.
use rv.Common.{
  ℕ, suc, zero, ◌<◌, ◌≡◌, arith, Bool, true, false, some, List, length, get_elem?, length-set,
  get_elem?-set_self, get_elem?-set_ne, get_or, get_elem?-eq-get_or, set, length-replicate,
  replicate,
}
use rv.Reg.{Reg, reg_create, reg_write_data, reg_write_src, reg_read_data, reg_read_src}
use rv.Int.{pos}

pub record IsValid (r : Reg) : Type 0 where
  pub x_room : length r.x ≡ r.size
  pub s_room : length r.s ≡ r.size
  pub d_room : length r.d ≡ r.size
  pub zero_value : get_elem? r.x 0 ≡ some 0
  pub zero_clean : get_elem? r.d 0 ≡ some false

-- `reg_create` of at least one register, with its memory there, returns 0 and gives a valid file,
-- whatever that memory holds.
pub reg_create-IsValid :
    (size : ℕ) (x : List ℕ) (r : Reg)
    → length x ≡ size
    → 0 < size
    → (r' : Reg) × (reg_create size (some x) true true r ≡ some (pos 0, r')) × IsValid r'
unfolding reg_create
reg_create-IsValid zero x r e h = elim h [ ]
reg_create-IsValid (suc n) x r e h = (
  record { size = suc n; x = set x 0 0; s = replicate (suc n) 0; d = replicate (suc n) false },
  ground (arith, length-replicate {A = ℕ} n 0),
  ground (
    arith,
    length-set x 0 0,
    get_elem?-set_self x 0 0,
    length-replicate {A = ℕ} n 0,
    length-replicate n false,
  ),
)

pub reg_write_data-IsValid :
    (addr v : ℕ) {r r' : Reg} {ok : Bool}
    → IsValid r
    → reg_write_data addr v r ≡ some (ok, r')
    → IsValid r'
unfolding reg_write_data
reg_write_data-IsValid addr v {r} inv h = ground (
  arith,
  length-set r.x addr v,
  length-set r.d addr false,
  get_elem?-set_ne r.x addr 0 v,
  get_elem?-set_ne r.d addr 0 false,
)

pub reg_write_src-IsValid :
    (addr tag : ℕ) {r r' : Reg} {ok : Bool}
    → IsValid r
    → reg_write_src addr tag r ≡ some (ok, r')
    → IsValid r'
unfolding reg_write_src
reg_write_src-IsValid addr tag {r} inv h =
    ground
      (arith, length-set r.s addr tag, length-set r.d addr true, get_elem?-set_ne r.d addr 0 true)

-- In a valid file register 0 reads as 0, and is ready.
pub read_zero :
    (old : ℕ) {r : Reg}
    → IsValid r
    → 0 < r.size
    → (reg_read_data 0 (some old) r ≡ some (true, some 0))
      × ((t : ℕ) × (reg_read_src 0 (some old) r ≡ some (false, some t)))
unfolding reg_read_data reg_read_src
read_zero old {r} inv h =
    (ground arith, (get_or r.s 0 0, ground (arith, get_elem?-eq-get_or r.s 0 0)))
