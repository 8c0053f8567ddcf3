-- ===== src/Rv32/Program.antt =====
-- Programs in the memory, for `loadProgramInMemory` and `simulatorFetch` of
-- sw/ELE749_projet1-develop/src/simulator.c.
use rv.Common.{
  length, get_elem?, ℕ, ◌+◌, ◌*◌, ◌^◌, ◌≤◌, ◌<◌, ◌≡◌, refl, subst, ap, ◌∙◌, Bool, true, false, some,
  List, [], ◌∷◌, map, arith,
}
use rv.Proc.{proc_memsize, ProcState, proc_get_pc, proc_write_mem, proc_read_mem}
use rv.Word.{u32}
use rv.Mem.{host_index}
use rv.Mem.Loop.{Fits, Wrote, Read, write_loop-Wrote, read_loop-Read, slot}
use rv.Mem.RoundTrip.{same_bytes}
use rv.Proc.Invariant.{IsValid, block-IsValid}
use rv.Rv32.Data.{bytes_of, value_of, object_of, object_value}
use rv.Rv32.Machine.{Machine}
use rv.Rv32.Simulator.{simulator_fetch, load_program_in_memory}

module _ (little : Bool) where
  -- The memory holds a word at an address, the lowest byte first.
  abbrev pub Holds : List ℕ → ℕ → ℕ → Type 0
  Holds b at w =
      (j : ℕ)
      → j < 4
      → get_elem? b (slot proc_memsize at j)
        ≡ get_elem? (object_of little 4 w) (host_index little 4 j)

  -- It holds words one behind the other.
  abbrev pub Loaded : List ℕ → ℕ → List ℕ → Type 0
  Loaded b at [] = Unit
  Loaded b at (w ∷ ws) = Holds b at w × Loaded b (at + 4) ws

pub length-object_of : (l : Bool) (w : ℕ) → length (object_of l 4 w) ≡ 4
unfolding bytes_of
length-object_of true w = refl
length-object_of false w = refl

pub value-object_of : (l : Bool) (w : ℕ) → w < 2 ^ 32 → object_value l (object_of l 4 w) ≡ w
unfolding bytes_of value_of
value-object_of true w h = omega arith
value-object_of false w h = omega arith

pub same_object :
    (l : Bool) (at w : ℕ) (b old d : List ℕ)
    → length old ≡ 4
    → Holds l b at w
    → Read l proc_memsize at 4 0 b old d
    → d ≡ object_of l 4 w
unfolding bytes_of
same_object true at w b old d e holds r =
    same_bytes (object_of true 4 w) old d b e
      (record { same_length = refl; bytes = λ j lo hi. holds j hi; others = λ k ne. refl }) r
same_object false at w b old d e holds r =
    same_bytes (object_of false 4 w) old d b e
      (record { same_length = refl; bytes = λ j lo hi. holds j hi; others = λ k ne. refl }) r

module _ (little : Bool) where
  pub word-Fits :
      {at : ℕ} {p : ProcState} {b : List ℕ}
      → IsValid p b
      → at < proc_memsize
      → Fits proc_memsize at 4 b
  word-Fits v h = record {
    some_size = omega arith;
    room = v.room;
    short = omega arith;
    no_wrap = omega arith;
  }

  write_word :
      (at w : ℕ) {p : ProcState} {b : List ℕ}
      → IsValid p b
      → at < proc_memsize
      → (b' : List ℕ) × (proc_write_mem little at (some (object_of little 4 w)) 4 p
          ≡ some (4, record p { mem = some b' }))
        × Wrote little proc_memsize at 4 0 (object_of little 4 w) b b'
  unfolding proc_write_mem
  write_word at w {p} {b} v h =
      let (b', writes, wrote) =
        write_loop-Wrote little proc_memsize at 4 4 0 (object_of little 4 w) b refl
          (omega (arith, length-object_of little w)) (word-Fits v h) in
      (b', rw (v.block, writes) refl, wrote)

  pub simulator_fetch-Holds :
      (w : ℕ) (m : Machine) {b : List ℕ}
      → IsValid m.proc b
      → w < 2 ^ 32
      → Holds little b m.proc.pc w
      → simulator_fetch little m ≡ some (w, record m { inst = record m.inst { inst = w } })
  unfolding simulator_fetch proc_read_mem proc_get_pc
  simulator_fetch-Holds w m {b} v h holds =
      let old = object_of little 4 m.inst.inst in
      let (d, reads, r) =
        read_loop-Read little proc_memsize m.proc.pc 4 4 0 b old refl
          (length-object_of little m.inst.inst) (word-Fits v v.pc_in) in
      let same =
        same_object little m.proc.pc w b old d (length-object_of little m.inst.inst) holds r in
      rw (v.block, reads, same, value-object_of little w h) refl

  -- The memory below `at` is as before.
  abbrev Below : ℕ → List ℕ → List ℕ → Type 0
  Below at b b' = (k : ℕ) → k < at → get_elem? b' k ≡ get_elem? b k

  Loaded-later :
      (w at : ℕ) (b b' : List ℕ)
      → at + 4 ≤ proc_memsize
      → Holds little b at w
      → Below (at + 4) b b'
      → Holds little b' at w
  Loaded-later w at b b' h holds below j lt =
      below (slot proc_memsize at j) (omega arith) ∙ holds j lt

  load_step :
      (w at : ℕ) (rest : List (ℕ × ℕ)) (p p₁ p₂ : ProcState)
      → at + 4 < 2 ^ 32
      → proc_write_mem little at (some (object_of little 4 w)) 4 p ≡ some (4, p₁)
      → load_program_in_memory little (at + 4) rest p₁ ≡ some p₂
      → load_program_in_memory little at ((w, 4) ∷ rest) p ≡ some p₂
  unfolding load_program_in_memory
  load_step w at rest p p₁ p₂ h writes loads =
      let next : at + 4 ≡ u32 (at + 4) = omega arith in
      rw writes (subst (λ k. load_program_in_memory little k rest p₁ ≡ some p₂) next loads)

  -- `loadProgramInMemory` of 32-bit words on a valid state, where the program fits the memory above
  -- its address, does not fault, leaves the registers and the counter, and the memory holds the
  -- words in order, on a host of either endianness; nothing below the address changes.
  pub load_program_in_memory-Loaded :
      (ws : List ℕ) (at : ℕ) (p : ProcState) (b : List ℕ)
      → IsValid p b
      → at + 4 * length ws ≤ proc_memsize
      → (b' : List ℕ) × (load_program_in_memory little at (map (λ w. (w, 4)) ws) p
          ≡ some (record p { mem = some b' }))
        × IsValid (record p { mem = some b' }) b'
        × Loaded little b' at ws
        × Below at b b'
  unfolding load_program_in_memory
  load_program_in_memory-Loaded [] at p b v h =
      (b, ap (λ q. some (record p { mem = q })) v.block, block-IsValid b v refl, tt, λ k lt. refl)
  load_program_in_memory-Loaded (w ∷ ws) at p b v h =
      let (b₁, writes, wrote) = write_word at w v (omega arith) in
      let p₁ : ProcState = record p { mem = some b₁ } in
      let (b₂, loads, v₂, loaded, below) =
        load_program_in_memory-Loaded ws (at + 4) p₁ b₁ (block-IsValid b₁ v wrote.same_length)
          (omega arith) in
      (
        b₂,
        load_step w at (map (λ w. (w, 4)) ws) p p₁ (record p { mem = some b₂ }) (omega arith) writes
            loads,
        v₂,
        (
          Loaded-later w at b₁ b₂ (omega arith) (λ j lt. wrote.bytes j (omega arith) lt) below,
          loaded,
        ),
        (λ k lt. below k (omega arith) ∙ wrote.others k (λ j lo hi e. absurd (omega arith))),
      )
