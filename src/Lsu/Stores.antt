-- ===== src/Lsu/Stores.antt =====
-- The store buffer of sw/src/lsu.c, after `lsu_create`.
use rv.Common.{
  ℕ, ◌+◌, ◌%◌, ◌≡◌, ◌<◌, ltb, ◌==◌, arith, refl, length, set, length-set, Bool-cases, inl, inr,
  ◌>>=◌, true, false, Option, none, some, List, [], ◌∷◌,
}
use rv.Lsu.{storing, LsuBuf, LoadBuf, StoreBuf, Lsu, lsu_create, lsu_sched_store}
use native.Mathlib.Nat.{mod-eq_of_lt}

-- A client's stores in order.
unfoldable pub stores : List (LsuBuf × LsuBuf × ℕ) → Lsu → Option Lsu
stores [] l = some l
stores ((addr, stored, f3) ∷ calls) l = do
  (_, l') ← lsu_sched_store addr stored f3 l
  stores calls l'

stores_fault :
    (calls : List (LsuBuf × LsuBuf × ℕ)) (l : Lsu)
    → l.sb_write_ptr + length calls ≡ length l.sb + 1
    → l.sb_write_ptr < length l.sb + 1
    → length l.sb < l.sb_size
    → l.sb_nb ≡ l.sb_write_ptr
    → stores calls l ≡ none
unfolding stores lsu_sched_store
stores_fault [] l e p s n = absurd (omega arith)
stores_fault ((addr, stored, f3) ∷ calls) l e p s n =
    let free : (l.sb_size == l.sb_nb) ≡ false = ground arith in
    let new = storing addr stored f3 in
    elim (Bool-cases (ltb l.sb_write_ptr (length l.sb))) [
      | inl inside ↦
          (let some_size : ltb 0 l.sb_size ≡ true = ground arith in
            let next : (l.sb_write_ptr + 1) % l.sb_size ≡ l.sb_write_ptr + 1 =
              mod-eq_of_lt {n = l.sb_write_ptr + 1} {m = l.sb_size} (ground arith) in
            let same = length-set l.sb l.sb_write_ptr new in
            let l' : Lsu = record l {
              sb = set l.sb l.sb_write_ptr new;
              sb_nb = l.sb_nb + 1;
              sb_write_ptr = (l.sb_write_ptr + 1) % l.sb_size;
            } in
            rw (free, inside, some_size)
              (stores_fault calls l' (omega arith) (ground arith) (omega arith) (omega arith)))
      | inr outside ↦ rw (free, outside) refl
    ]

-- After an `lsu_create` that is asked for fewer stores than loads, and gets its memory, any calls
-- of `lsu_sched_store`, one more than the store buffer has entries, fault.
pub lsu_sched_store_overflow :
    (enomem load_size store_size : ℕ) (lb : List LoadBuf) (sb : List StoreBuf) (l : Lsu)
    (calls : List (LsuBuf × LsuBuf × ℕ))
    → length sb ≡ store_size
    → store_size < load_size
    → length calls ≡ store_size + 1
    → stores calls (lsu_create enomem load_size store_size (some lb) (some sb) l).1 ≡ none
unfolding lsu_create
lsu_sched_store_overflow enomem load_size store_size lb sb l calls room less many =
    stores_fault calls (lsu_create enomem load_size store_size (some lb) (some sb) l).1
      (omega arith) (omega arith) (omega arith) refl
