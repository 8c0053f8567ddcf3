-- ===== src/Lsu/Loads.antt =====
-- The load buffer of sw/src/lsu.c.
use rv.Common.{
  ℕ, ◌+◌, ◌≡◌, ◌<◌, ◌≤◌, ltb, ◌==◌, if◌then◌else◌, Bool-cases, inl, inr, arith, refl, length, true,
  some, List, [], ◌∷◌,
}
use rv.Lsu.{LsuBuf, LoadBuf, Lsu, place_load, loading, lsu_sched_load}

abbrev pub busy_count : List LoadBuf → ℕ
busy_count [] = 0
busy_count (x ∷ xs) = (if x.busy then 1 else 0) + busy_count xs

-- The counter is the number of entries in use.
pub record IsValid (l : Lsu) : Type 0 where
  pub room : length l.lb ≡ l.lb_size
  pub counted : busy_count l.lb ≡ l.lb_nb

busy_count-le : (xs : List LoadBuf) → busy_count xs ≤ length xs
busy_count-le [] = omega arith
busy_count-le (x ∷ xs) = ground (arith, busy_count-le xs)

place_load_lem :
    (addr : LsuBuf) (f3 : ℕ) (xs : List LoadBuf)
    → busy_count xs < length xs
    → (ys : List LoadBuf) × (place_load addr f3 xs ≡ some ys)
      × (length ys ≡ length xs)
      × (busy_count ys ≡ busy_count xs + 1)
unfolding place_load
place_load_lem addr f3 [] h = absurd (omega arith)
place_load_lem addr f3 (x ∷ xs) h = elim (Bool-cases x.busy) [
  | inl busy ↦
      (let (ys, runs, l, c) = place_load_lem addr f3 xs (ground arith) in
        (x ∷ ys, ground arith, omega arith, ground arith))
  | inr free ↦ (loading addr f3 x ∷ xs, rw free refl, refl, ground arith)
]

-- `lsu_sched_load` on a valid load buffer succeeds exactly if an entry is free. Then one more entry
-- is in use, otherwise as many as before, and the buffer stays valid.
pub lsu_sched_load-IsValid :
    (addr : LsuBuf) (f3 : ℕ) {l : Lsu}
    → IsValid l
    → (l' : Lsu) × (lsu_sched_load addr f3 l ≡ (ltb (busy_count l.lb) l.lb_size, l'))
      × IsValid l'
      × (busy_count l'.lb
          ≡ (if ltb (busy_count l.lb) l.lb_size then busy_count l.lb + 1 else busy_count l.lb))
unfolding lsu_sched_load
lsu_sched_load-IsValid addr f3 {l} v = elim (Bool-cases (l.lb_size == l.lb_nb)) [
  | inl full ↦ (l, ground (arith, v.counted), v, ground (arith, v.counted))
  | inr free ↦
      (let le = busy_count-le l.lb in
        let (ys, places, len, cnt) =
          place_load_lem addr f3 l.lb (ground (arith, v.counted, v.room)) in
        let test : ltb (busy_count l.lb) l.lb_size ≡ true = ground (arith, v.counted, v.room) in
        (
          record l { lb = ys; lb_nb = l.lb_nb + 1 },
          rw (free, places, test) refl,
          record { room = omega (arith, v.room); counted = omega (arith, v.counted) },
          rw test cnt,
        ))
]
