-- ===== src/Engine/Safety/Cycle.antt =====
-- A whole cycle of sw/src/engine.c on a valid engine.
use rv.Common.{
  lt→ltb, length, set, All, length-set, get_elem?-some, ℕ, zero, suc, ◌+◌, ◌%◌, ◌<◌, ◌≡◌, refl, ◌∙◌,
  Bool, true, false, some, List, [], ◌∷◌, arith,
}
use rv.Int.{pos}
use rv.Word.{u32}
use rv.Mem.{Mem, host_index, read_loop, mem_read}
use rv.Mem.Loop.{host_lt}
use rv.Mem.Endian.{word_bytes, word_of}
use rv.Engine.State.{Engine}
use rv.Engine.WriteBack.{execute}
use rv.Engine.Dispatch.{Locals}
use rv.Engine.Run.{fetch, before_issue, engine_run}
use rv.Engine.Invariant.{IsValid}
use rv.Engine.Safety.Commit.{commit-IsValid}
use rv.Engine.Safety.WriteBack.{FewDone, write_back-IsValid, execute-IsValid}
use rv.Engine.Safety.Issue.{Defined, issue-IsValid}
use rv.Engine.Safety.Dispatch.{dispatch-IsValid}

-- The memory is there, and not of size 0.
pub record HasMemory (m : Mem) (b : List ℕ) : Type 0 where
  pub block : m.mem ≡ some b
  pub room : length b ≡ m.mem_size
  pub some_size : 0 < m.mem_size

module _ (little : Bool) (size addr n : ℕ) where
  read_loop_total :
      (left i : ℕ) (b d : List ℕ)
      → left + i ≡ n
      → length d ≡ n
      → length b ≡ size
      → 0 < size
      → (d' : List ℕ) × (read_loop little size addr n left i b d ≡ some d') × (length d' ≡ n)
  unfolding read_loop
  read_loop_total zero i b d e l r s = (d, refl, l)
  read_loop_total (suc left) i b d e l r s =
      let at = u32 (addr + i) % size in
      let (v, found) = get_elem?-some b at (omega arith) in
      let k = host_index little n i in
      let same = length-set d k v in
      let (d', runs, l') =
        read_loop_total left (i + 1) b (set d k v) (omega arith) (same ∙ l) r s in
      (
        d',
        rw (lt→ltb 0 size s, found, lt→ltb k (length d) (omega (arith, host_lt little n i))) runs,
        l',
      )

four_bytes : (little : Bool) (d : List ℕ) → length d ≡ 4 → (w : ℕ) × (word_of little d ≡ some w)
unfolding word_of
four_bytes little [] l = absurd (omega arith)
four_bytes little (a ∷ []) l = absurd (omega arith)
four_bytes little (a ∷ b ∷ []) l = absurd (omega arith)
four_bytes little (a ∷ b ∷ c ∷ []) l = absurd (omega arith)
four_bytes little (a ∷ b ∷ c ∷ d ∷ []) l = (_, refl)
four_bytes little (a ∷ b ∷ c ∷ d ∷ x ∷ xs) l = absurd (omega arith)

-- The invariant does not speak of the program counter, the instruction and the memory.
pub moved :
    {n : ℕ} {e : Engine} (pc instruction : ℕ)
    → IsValid n e
    → IsValid n (record e { pc = pc; instruction = instruction })
moved pc instruction v = record {
  rob = v.rob;
  rob_size = v.rob_size;
  reg = v.reg;
  registers = v.registers;
  tags = v.tags;
  lanes = v.lanes;
  units = v.units;
  entries = v.entries;
}

pub length-word_bytes : (little : Bool) (w : ℕ) → length (word_bytes little w) ≡ 4
unfolding word_bytes
length-word_bytes true w = refl
length-word_bytes false w = refl

fetch-IsValid :
    {n : ℕ} (little : Bool) {e : Engine} {b : List ℕ}
    → IsValid n e
    → HasMemory e.mem b
    → (e' : Engine) × (fetch little e ≡ some e')
      × IsValid n e'
      × (e'.exu ≡ e.exu)
      × (e'.cdb ≡ e.cdb)
unfolding fetch mem_read
fetch-IsValid little {e} {b} v m =
    let (d, reads, l) =
      read_loop_total little e.mem.mem_size e.pc 4 4 0 b (word_bytes little e.instruction) refl
        (length-word_bytes little e.instruction) m.room m.some_size in
    let (w, is) = four_bytes little d l in
    (record e { instruction = w }, ground (arith, m.block, reads, is), moved e.pc w v, refl, refl)

-- On a valid engine with a memory, with a lane for every finished unit, a cycle up to `issue` does
-- not fault and leaves a valid engine.
pub before_issue-IsValid :
    {n : ℕ} (little : Bool) {e : Engine} {b : List ℕ}
    → IsValid n e
    → HasMemory e.mem b
    → FewDone e
    → (e' : Engine) × (before_issue little e ≡ some e') × IsValid n e'
unfolding before_issue
before_issue-IsValid little v m few =
    let (e₁, r₁, v₁, x₁, c₁) = fetch-IsValid little v m in
    let (e₂, r₂, v₂, x₂, c₂) = commit-IsValid v₁ in
    let few₂ : FewDone e₂ = rw (x₂, c₂, x₁, c₁) few in
    let (e₃, r₃, v₃) = write_back-IsValid v₂ few₂ in
    (execute e₃, rw (r₁, r₂, r₃), execute-IsValid v₃)

-- The rest of the cycle.
after_issue-IsValid :
    {n : ℕ} (little : Bool) (junk : Locals) (e : Engine) {e₁ : Engine}
    → before_issue little e ≡ some e₁
    → IsValid n e₁
    → All Defined e₁.exb.buf
    → (e' : Engine) × (engine_run little junk e ≡ some (pos 0, e')) × IsValid n e'
unfolding engine_run
after_issue-IsValid {n} little junk e {e₁} runs v₁ d =
    let (count, e₂, r₂, v₂) = issue-IsValid v₁ d in
    let (code, e₃, r₃, v₃) = dispatch-IsValid junk v₂ in
    (
      record e₃ { pc = u32 (e₃.pc + 4) },
      rw (runs, r₂, r₃),
      moved (u32 (e₃.pc + 4)) e₃.instruction v₃,
    )

-- C defines every operation that is ready when `issue` runs.
abbrev pub AllowedOps : Bool → Engine → Type 0
AllowedOps little e = (e₁ : Engine) → before_issue little e ≡ some e₁ → All Defined e₁.exb.buf

-- On a valid engine with a memory, with no more finished units than lanes, a cycle in which C
-- defines every operation that is ready when `issue` runs does not fault, returns 0, and leaves a
-- valid engine. The number of units is not bounded: main has two, and one lane.
pub engine_run-IsValid :
    {n : ℕ} (little : Bool) (junk : Locals) {e : Engine} {b : List ℕ}
    → IsValid n e
    → HasMemory e.mem b
    → FewDone e
    → AllowedOps little e
    → (e' : Engine) × (engine_run little junk e ≡ some (pos 0, e')) × IsValid n e'
engine_run-IsValid little junk {e} v m few d =
    let (e₁, runs, v₁) = before_issue-IsValid little v m few in
    after_issue-IsValid little junk e runs v₁ (d e₁ runs)
