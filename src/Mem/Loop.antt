-- ===== src/Mem/Loop.antt =====
-- What the byte loops of `mem_write` and `mem_read` do, while their addresses do not wrap at 2 ^ 32.
use native.Mathlib.Nat.{mod-eq_of_lt}
use rv.Mem.{host_index, write_loop, read_loop, cell}
use rv.Common.{
  ℕ, zero, suc, ◌+◌, ◌%◌, ◌<◌, ◌≤◌, ◌≡◌, ◌≢◌, ◌^◌, Bool, some, List, refl, arith, length, get_elem?,
  get_or, set, get_elem?-eq-get_or, length-set, ◌∙◌, dec_lt, get_elem?-set_ne, sym,
  get_elem?-set_self, subst,
}

-- Two numbers less than `s` apart have different remainders by `s`.
pub mod-ne : (s a b : ℕ) → a < b → b < a + s → a % s ≢ b % s
mod-ne s a b lo hi e = grind arith

abbrev pub slot : ℕ → ℕ → ℕ → ℕ
slot size addr i = (addr + i) % size

pub host_lt : (little : Bool) (n i : ℕ) → i < n → host_index little n i < n
host_lt little n i h = ground arith

-- What is asked of an access of `n` bytes.
pub record Fits (size addr n : ℕ) (b : List ℕ) : Type 0 where
  pub some_size : 0 < size
  pub room : length b ≡ size
  pub short : n ≤ size
  pub no_wrap : addr + n ≤ 2 ^ 32

module _ (little : Bool) (size addr n : ℕ) where
  -- The memory after the loop, from round `i` on.
  pub record Wrote (i : ℕ) (d b b' : List ℕ) : Type 0 where
    pub same_length : length b' ≡ length b
    pub bytes :
        (j : ℕ)
        → i ≤ j
        → j < n
        → get_elem? b' (slot size addr j) ≡ get_elem? d (host_index little n j)
    pub others :
        (k : ℕ) → ((j : ℕ) → i ≤ j → j < n → k ≢ slot size addr j) → get_elem? b' k ≡ get_elem? b k

  cell_lem :
      (i : ℕ) {b : List ℕ} → i < n → Fits size addr n b → cell size addr i ≡ some (slot size addr i)
  cell_lem i h f = rw (mod-eq_of_lt {n = addr + i} {m = 2 ^ 32} (omega arith)) (ground arith)

  write_step :
      (left i : ℕ) (d b : List ℕ)
      → i < n
      → n ≤ length d
      → Fits size addr n b
      → write_loop little size addr n (suc left) i d b
        ≡ write_loop little size addr n left
            (i + 1)
            d
            (set b (slot size addr i) (get_or d (host_index little n i) 0))
  unfolding write_loop
  write_step left i d b h l f =
      ground (
        arith,
        cell_lem i h f,
        host_lt little n i h,
        get_elem?-eq-get_or d (host_index little n i) 0,
      )

  -- One round, then the rest.
  Wrote-step :
      (i : ℕ) (d b : List ℕ) {b' : List ℕ}
      → i < n
      → n ≤ length d
      → Fits size addr n b
      → Wrote (i + 1) d (set b (slot size addr i) (get_or d (host_index little n i) 0)) b'
      → Wrote i d b b'
  Wrote-step i d b {b'} h l f w = record {
    same_length = w.same_length ∙ length-set b at v;
    bytes = λ j lo hi. elim (dec_lt i j) [
      | yes later ↦ w.bytes j (omega arith) hi
      | no now ↦
          (let same : i ≡ j = omega arith in
            subst (λ k. get_elem? b' (slot size addr k) ≡ get_elem? d (host_index little n k)) same
              first)
    ];
    others = λ k ne.
        w.others k (λ j lo hi. ne j (omega arith) hi)
        ∙ get_elem?-set_ne b at k v (λ e. ne i (omega arith) h (sym e));
  }
    where
      at : ℕ
      at = slot size addr i

      v : ℕ
      v = get_or d (host_index little n i) 0

      first : get_elem? b' at ≡ get_elem? d (host_index little n i)
      first =
          w.others at (λ j lo hi. mod-ne size (addr + i) (addr + j) (omega arith) (omega arith))
          ∙ get_elem?-set_self b at v (omega arith)
          ∙ sym (
              get_elem?-eq-get_or d (host_index little n i) 0 (omega (arith, host_lt little n i h)))

  pub write_loop-Wrote :
      (left i : ℕ) (d b : List ℕ)
      → left + i ≡ n
      → n ≤ length d
      → Fits size addr n b
      → (b' : List ℕ) × (write_loop little size addr n left i d b ≡ some b') × Wrote i d b b'
  unfolding write_loop
  write_loop-Wrote zero i d b e l f = (
    b,
    refl,
    record { same_length = refl; bytes = λ j lo hi. absurd (omega arith); others = λ k h. refl },
  )
  write_loop-Wrote (suc left) i d b e l f =
      let b₁ = set b (slot size addr i) (get_or d (host_index little n i) 0) in
      let l₁ = length-set b (slot size addr i) (get_or d (host_index little n i) 0) in
      let (b', runs, w) = write_loop-Wrote left (i + 1) d b₁ (omega arith) l (omega (arith, l₁)) in
      (b', write_step left i d b (omega arith) l f ∙ runs, Wrote-step i d b (omega arith) l f w)

module _ (little : Bool) (size addr n : ℕ) where
  -- The object after the loop, from round `i` on.
  pub record Read (i : ℕ) (b d d' : List ℕ) : Type 0 where
    pub same_length : length d' ≡ length d
    pub filled :
        (j : ℕ)
        → i ≤ j
        → j < n
        → get_elem? d' (host_index little n j) ≡ get_elem? b (slot size addr j)
    pub kept :
        (j : ℕ)
        → j < i
        → j < n
        → get_elem? d' (host_index little n j) ≡ get_elem? d (host_index little n j)

  read_step :
      (left i : ℕ) (b d : List ℕ)
      → i < n
      → length d ≡ n
      → Fits size addr n b
      → read_loop little size addr n (suc left) i b d
        ≡ read_loop little size addr n left
            (i + 1)
            b
            (set d (host_index little n i) (get_or b (slot size addr i) 0))
  unfolding read_loop
  read_step left i b d h l f = ground (
    arith,
    cell_lem little size addr n i h f,
    host_lt little n i h,
    get_elem?-eq-get_or b (slot size addr i) 0,
  )

  Read-step :
      (i : ℕ) (b d : List ℕ) {d' : List ℕ}
      → i < n
      → length d ≡ n
      → Fits size addr n b
      → Read (i + 1) b (set d (host_index little n i) (get_or b (slot size addr i) 0)) d'
      → Read i b d d'
  Read-step i b d {d'} h l f r = record {
    same_length = r.same_length ∙ length-set d at v;
    filled = λ j lo hi. elim (dec_lt i j) [
      | yes later ↦ r.filled j (omega arith) hi
      | no now ↦
          (let same : i ≡ j = omega arith in
            subst (λ k. get_elem? d' (host_index little n k) ≡ get_elem? b (slot size addr k)) same
              first)
    ];
    kept = λ j lo hi.
        r.kept j (omega arith) hi ∙ get_elem?-set_ne d at (host_index little n j) v (ground arith);
  }
    where
      at : ℕ
      at = host_index little n i

      v : ℕ
      v = get_or b (slot size addr i) 0

      first : get_elem? d' at ≡ get_elem? b (slot size addr i)
      first =
          r.kept i (omega arith) h
          ∙ get_elem?-set_self d at v (omega (arith, host_lt little n i h))
          ∙ sym (get_elem?-eq-get_or b (slot size addr i) 0 (omega arith))

  pub read_loop-Read :
      (left i : ℕ) (b d : List ℕ)
      → left + i ≡ n
      → length d ≡ n
      → Fits size addr n b
      → (d' : List ℕ) × (read_loop little size addr n left i b d ≡ some d') × Read i b d d'
  unfolding read_loop
  read_loop-Read zero i b d e l f = (
    d,
    refl,
    record { same_length = refl; filled = λ j lo hi. absurd (omega arith); kept = λ j lo hi. refl },
  )
  read_loop-Read (suc left) i b d e l f =
      let d₁ = set d (host_index little n i) (get_or b (slot size addr i) 0) in
      let l₁ = length-set d (host_index little n i) (get_or b (slot size addr i) 0) in
      let (d', runs, r) = read_loop-Read left (i + 1) b d₁ (omega arith) (omega (arith, l₁)) f in
      (d', read_step left i b d (omega arith) l f ∙ runs, Read-step i b d (omega arith) l f r)
