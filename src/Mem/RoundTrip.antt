-- ===== src/Mem/RoundTrip.antt =====
-- `mem_write` and `mem_read` of sw/src/mem.c together.
use rv.Common.{
  ◌>>=◌, length, get_elem?, ℕ, suc, ◌<◌, ◌≡◌, refl, subst, ap₂, ◌∙◌, ◌≢◌, Bool, some,
  some-injective, List, [], ◌∷◌, arith,
}
use rv.Mem.{Mem, host_index, mem_write, mem_read}
use rv.Mem.Loop.{Fits, slot, Wrote, Read, host_lt, write_loop-Wrote, read_loop-Read}

-- Lists of one length that agree at every place are equal.
pub list_ext :
    (xs ys : List ℕ)
    → length xs ≡ length ys
    → ((i : ℕ) → i < length xs → get_elem? xs i ≡ get_elem? ys i)
    → xs ≡ ys
list_ext [] [] e h = refl
list_ext [] (y ∷ ys) e h = absurd (omega arith)
list_ext (x ∷ xs) [] e h = absurd (omega arith)
list_ext (x ∷ xs) (y ∷ ys) e h =
    ap₂ ◌∷◌ (some-injective _ _ (h 0 (omega arith)))
      (list_ext xs ys (omega arith) (λ i lt. h (suc i) (omega arith)))

host_index_twice :
    (little : Bool) (n k : ℕ) → k < n → host_index little n (host_index little n k) ≡ k
host_index_twice little n k h = ground arith

-- The condition on an access: `n` bytes fit the memory, and their addresses stay below 2 ^ 32.
pub record Access (addr n : ℕ) (b : List ℕ) (m : Mem) : Type 0 where
  pub block : m.mem ≡ some b
  pub fits : Fits m.mem_size addr n b
  pub some_bytes : 0 < n

-- Reading what was written fills the object with the same bytes.
pub same_bytes :
    {little : Bool} {size addr : ℕ} {b : List ℕ} (d old d' b' : List ℕ)
    → length old ≡ length d
    → Wrote little size addr (length d) 0 d b b'
    → Read little size addr (length d) 0 b' old d'
    → d' ≡ d
same_bytes {little} {size} {addr} d old d' b' l w r = list_ext d' d (r.same_length ∙ l) (λ i lt.
    subst (λ k. get_elem? d' k ≡ get_elem? d k) (host_index_twice little (length d) i (inside i lt))
      (r.filled (there i) (omega arith) (back i (inside i lt))
        ∙ w.bytes (there i) (omega arith) (back i (inside i lt))))
  where
    there : ℕ → ℕ
    there i = host_index little (length d) i

    inside : (i : ℕ) → i < length d' → i < length d
    inside i lt = omega (arith, r.same_length)

    back : (i : ℕ) → i < length d → there i < length d
    back i lt = host_lt little (length d) i lt

module _ (little : Bool) (addr : ℕ) {b : List ℕ} {m : Mem} where
  mem_write_lem :
      (d : List ℕ)
      → Access addr (length d) b m
      → (b' : List ℕ) × (mem_write little addr (some d) (length d) m
          ≡ some (length d, record m { mem = some b' }))
        × Wrote little m.mem_size addr (length d) 0 d b b'
  unfolding mem_write
  mem_write_lem d a =
      let (b', runs, w) =
        write_loop-Wrote little m.mem_size addr (length d) (length d) 0 d b (omega arith)
          (omega arith) a.fits in
      (b', ground (arith, runs, a.block), w)

  mem_read_lem :
      (n : ℕ) (old : List ℕ)
      → length old ≡ n
      → Access addr n b m
      → (d' : List ℕ) × (mem_read little addr (some old) n m ≡ some (n, some d'))
        × Read little m.mem_size addr n 0 b old d'
  unfolding mem_read
  mem_read_lem n old l a =
      let (d', runs, r) =
        read_loop-Read little m.mem_size addr n n 0 b old (omega arith) l a.fits in
      (d', ground (arith, runs, a.block), r)

  -- `mem_write` of an object that is not empty, fits the memory and has its addresses below 2 ^ 32
  -- does not fault and returns its size; every byte of the memory at another place than those of
  -- the object is as before.
  pub mem_write_frame :
      (d : List ℕ)
      → Access addr (length d) b m
      → (b' : List ℕ) × (mem_write little addr (some d) (length d) m
          ≡ some (length d, record m { mem = some b' }))
        × ((k : ℕ)
            → ((j : ℕ) → j < length d → k ≢ slot m.mem_size addr j)
            → get_elem? b' k ≡ get_elem? b k)
  mem_write_frame d a =
      let (b', runs, w) = mem_write_lem d a in (b', runs, λ k ne. w.others k (λ j lo hi. ne j hi))

module _ (little : Bool) (addr : ℕ) {b : List ℕ} {m : Mem} where
  -- What `mem_write` has written, `mem_read` of the same size at the same address reads back, on a
  -- host of either endianness, if the object is not empty, fits the memory and its addresses stay
  -- below 2 ^ 32.
  pub mem_read-write :
      (d old : List ℕ)
      → length old ≡ length d
      → Access addr (length d) b m
      → (mem_write little addr (some d) (length d) m >>= λ w.
          mem_read little addr (some old) (length d) w.1)
        ≡ some (length d, some d)
  mem_read-write d old l a =
      let (b', runs, w) = mem_write_lem little addr d a in
      let after : Access addr (length d) b' (record m { mem = some b' }) = record {
        block = refl;
        fits = record {
          some_size = a.fits.some_size;
          room = w.same_length ∙ a.fits.room;
          short = a.fits.short;
          no_wrap = a.fits.no_wrap;
        };
        some_bytes = a.some_bytes;
      } in
      let (d', reads, r) = mem_read_lem little addr (length d) old l after in
      rw (runs, reads, same_bytes d old d' b' l w r)
