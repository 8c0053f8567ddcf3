-- ===== src/Debugger/Memory.antt =====
-- What `procReadMem` and `procWriteMem` do for the breakpoints of
-- sw/ELE749_projet1-develop/src/debugger.c: a word that was read, then covered, is put back.
use rv.Common.{
  ℕ_discrete, dec_lt, ◌≢◌, ◌==◌, length, get_elem?, All, get_elem?-some, All-get, ℕ, zero, suc, ◌+◌,
  ◌*◌, ◌^◌, ◌≤◌, ◌<◌, ◌≡◌, refl, sym, subst, ap₂, ◌∙◌, Bool, true, false, some, List, [], ◌∷◌,
  arith, ap, Option,
}
use rv.Proc.{proc_memsize, ProcState, proc_write_mem, proc_read_mem}
use rv.Proc.Invariant.{IsValid, block-IsValid}
use rv.Mem.{host_index}
use rv.Mem.Loop.{slot, Fits, Wrote, write_loop-Wrote, read_loop-Read}
use rv.Mem.RoundTrip.{list_ext}
use rv.Rv32.Data.{bytes_of, object_of, read_value}
use rv.Rv32.Program.{length-object_of, value-object_of, same_object, Holds, word-Fits}
use rv.Debugger.Breaks.{write_inst}

-- The bytes of the memory are `uint8_t`.
abbrev pub Bytes : List ℕ → Type 0
Bytes b = All (λ v. v < 2 ^ 8) b

byte_at :
    (b : List ℕ) (k : ℕ) → Bytes b → k < length b → (v : ℕ) × (get_elem? b k ≡ some v) × (v < 2 ^ 8)
byte_at b k bytes h =
    let (v, e) = get_elem?-some b k h in (v, e, All-get (λ v. v < 2 ^ 8) b k bytes e)

abbrev word_of : ℕ → ℕ → ℕ → ℕ → ℕ
word_of a b c d = a + 256 * (b + 256 * (c + 256 * d))

bytes_of-word_of :
    (a b c d : ℕ)
    → a < 2 ^ 8
    → b < 2 ^ 8
    → c < 2 ^ 8
    → d < 2 ^ 8
    → bytes_of 4 (word_of a b c d) ≡ a ∷ b ∷ c ∷ d ∷ []
unfolding bytes_of
bytes_of-word_of a b c d ha hb hc hd =
    ap₂ ◌∷◌ (omega arith)
      (ap₂ ◌∷◌ (omega arith) (ap₂ ◌∷◌ (omega arith) (ap₂ ◌∷◌ (omega arith) refl)))

-- Every four bytes are those of a word.
pub word_at :
    (little : Bool) (b : List ℕ) (at : ℕ)
    → Bytes b
    → length b ≡ proc_memsize
    → (w : ℕ) × (w < 2 ^ 32) × Holds little b at w
word_at little b at bytes room =
    let (b₀, e₀, h₀) = byte_at b (slot proc_memsize at 0) bytes (omega arith) in
    let (b₁, e₁, h₁) = byte_at b (slot proc_memsize at 1) bytes (omega arith) in
    let (b₂, e₂, h₂) = byte_at b (slot proc_memsize at 2) bytes (omega arith) in
    let (b₃, e₃, h₃) = byte_at b (slot proc_memsize at 3) bytes (omega arith) in
    (
      word_of b₀ b₁ b₂ b₃,
      omega arith,
      holds little b₀ b₁ b₂ b₃ e₀ e₁ e₂ e₃ (bytes_of-word_of b₀ b₁ b₂ b₃ h₀ h₁ h₂ h₃),
    )
  where
    holds :
        (l : Bool) (b₀ b₁ b₂ b₃ : ℕ)
        → get_elem? b (slot proc_memsize at 0) ≡ some b₀
        → get_elem? b (slot proc_memsize at 1) ≡ some b₁
        → get_elem? b (slot proc_memsize at 2) ≡ some b₂
        → get_elem? b (slot proc_memsize at 3) ≡ some b₃
        → bytes_of 4 (word_of b₀ b₁ b₂ b₃) ≡ b₀ ∷ b₁ ∷ b₂ ∷ b₃ ∷ []
        → Holds l b at (word_of b₀ b₁ b₂ b₃)
    holds true b₀ b₁ b₂ b₃ e₀ e₁ e₂ e₃ same zero h = e₀ ∙ rw same refl
    holds true b₀ b₁ b₂ b₃ e₀ e₁ e₂ e₃ same (suc zero) h = e₁ ∙ rw same refl
    holds true b₀ b₁ b₂ b₃ e₀ e₁ e₂ e₃ same (suc (suc zero)) h = e₂ ∙ rw same refl
    holds true b₀ b₁ b₂ b₃ e₀ e₁ e₂ e₃ same (suc (suc (suc zero))) h = e₃ ∙ rw same refl
    holds false b₀ b₁ b₂ b₃ e₀ e₁ e₂ e₃ same zero h = e₀ ∙ rw same refl
    holds false b₀ b₁ b₂ b₃ e₀ e₁ e₂ e₃ same (suc zero) h = e₁ ∙ rw same refl
    holds false b₀ b₁ b₂ b₃ e₀ e₁ e₂ e₃ same (suc (suc zero)) h = e₂ ∙ rw same refl
    holds false b₀ b₁ b₂ b₃ e₀ e₁ e₂ e₃ same (suc (suc (suc zero))) h = e₃ ∙ rw same refl
    holds l b₀ b₁ b₂ b₃ e₀ e₁ e₂ e₃ same (suc (suc (suc (suc j)))) h = absurd (omega arith)

module _ (little : Bool) (at : ℕ) {p : ProcState} {b : List ℕ} where
  pub read_value-Holds :
      (w : ℕ)
      → IsValid p b
      → at < proc_memsize
      → w < 2 ^ 32
      → Holds little b at w
      → read_value little 4 at p ≡ some w
  unfolding proc_read_mem
  read_value-Holds w v h small holds =
      let old = object_of little 4 0 in
      let (d, reads, r) =
        read_loop-Read little proc_memsize at 4 4 0 b old refl (length-object_of little 0)
          (word-Fits little v h) in
      let same = same_object little at w b old d (length-object_of little 0) holds r in
      rw (v.block, reads, same, value-object_of little w small) refl

  -- The bytes that `procWriteMem` of a part of a `uint32_t` changes.
  write_inst-Wrote :
      (w n : ℕ)
      → IsValid p b
      → at < proc_memsize
      → 0 < n
      → n ≤ 4
      → (b' : List ℕ) × (write_inst little at w n p ≡ some (record p { mem = some b' }))
        × Wrote little proc_memsize at n 0 (object_of little 4 w) b b'
  unfolding proc_write_mem
  write_inst-Wrote w n v h some_ few =
      let d = object_of little 4 w in
      let fits : Fits proc_memsize at n b = record {
        some_size = omega arith;
        room = v.room;
        short = omega arith;
        no_wrap = omega arith;
      } in
      let (b', writes, wrote) =
        write_loop-Wrote little proc_memsize at n n 0 d b (omega arith)
          (omega (arith, length-object_of little w)) fits in
      let some_bytes : (n == 0) ≡ false = ground arith in
      (b', rw (some_bytes, v.block, writes) refl, wrote)

module _ (little : Bool) (at n : ℕ) where
  -- After the loops at one place, first of any object, then of the bytes that were there, the
  -- memory is as before.
  covered :
      (d d' b b₁ b₂ : List ℕ)
      → Wrote little proc_memsize at n 0 d b b₁
      → Wrote little proc_memsize at n 0 d' b₁ b₂
      → ((j : ℕ)
          → j < n
          → get_elem? d' (host_index little n j) ≡ get_elem? b (slot proc_memsize at j))
      → n ≤ 4
      → b₂ ≡ b
  covered d d' b b₁ b₂ first second back few =
      list_ext b₂ b (second.same_length ∙ first.same_length)
        (λ k lt. by_search n (omega arith) k (λ j lo hi. absurd (omega arith)))
    where
      -- The place is that of one of the first `i` bytes, or of none of them.
      by_search :
          (i : ℕ)
          → i ≤ n
          → (k : ℕ) → ((j : ℕ) → i ≤ j → j < n → k ≢ slot proc_memsize at j)
          → get_elem? b₂ k ≡ get_elem? b k
      by_search zero le k ne =
          second.others k (λ j lo hi. ne j lo hi) ∙ first.others k (λ j lo hi. ne j lo hi)
      by_search (suc i) le k ne = elim (ℕ_discrete k (slot proc_memsize at i)) [
        | yes e ↦
            subst (λ q. get_elem? b₂ q ≡ get_elem? b q) (sym e)
              (second.bytes i (omega arith) (omega arith) ∙ back i (omega arith))
        | no other ↦ by_search i (omega arith) k (λ j lo hi. elim (dec_lt i j) [
          | yes later ↦ ne j (omega arith) hi
          | no now ↦
              (let same : i ≡ j = omega arith in subst (λ q. k ≢ slot proc_memsize at q) same other)
        ])
      ]

module _ (little : Bool) (at n : ℕ) {p : ProcState} {b : List ℕ} where
  pub write_inst-restores :
      (v w : ℕ)
      → IsValid p b
      → at < proc_memsize
      → 0 < n
      → n ≤ 4
      → ((j : ℕ)
          → j < n
          → get_elem? (object_of little 4 w) (host_index little n j)
            ≡ get_elem? b (slot proc_memsize at j))
      → (p₁ : ProcState) × (write_inst little at v n p ≡ some p₁)
        × (write_inst little at w n p₁ ≡ some p)
  write_inst-restores v w valid h some_ few back =
      let (b₁, covers, first) = write_inst-Wrote little at v n valid h some_ few in
      let valid₁ = block-IsValid b₁ valid first.same_length in
      let (b₂, restores, second) = write_inst-Wrote little at w n valid₁ h some_ few in
      let d = object_of little 4 v in
      let same : b₂ ≡ b =
        covered little at n d (object_of little 4 w) b b₁ b₂ first second back few in
      (
        record p { mem = some b₁ },
        covers,
        restores
            ∙ ap (λ (c : List ℕ). some (record p { mem = some c })) same
            ∙ ap (λ (c : Option (List ℕ)). some (record p { mem = c })) (sym valid.block),
      )
