-- ===== src/Engine/Safety/Init.antt =====
-- `engine_init` of sw/src/engine.c, where the allocations and the file are there.
use rv.Common.{
  lt→ltb, length, set, All, length-set, get_elem?-some, ℕ, zero, suc, ◌+◌, ◌%◌, ◌<◌, ◌≡◌, refl, ◌∙◌,
  Bool, some, List, [], ◌∷◌, arith, ◌≤◌, replicate, true, map, ltb, ◌||◌, ◌==◌, false,
}
use rv.Int.{pos}
use rv.Word.{u32}
use rv.Rob.{Rob, RobData, rob_create}
use rv.Reg.{Reg, reg_create}
use rv.Reg.Invariant.{reg_create-IsValid, IsValid as RegIsValid}
use rv.Engine.State.{Engine, ExbData, ExuData, CdbData}
use rv.Engine.Invariant.{IsValid, LaneOk, UnitOk, EntryOk, TagOk}
use rv.Rob.Invariant.{IsValid as RobIsValid}
use rv.Mem.{Mem, mem_create, host_index, write_loop, mem_write}
use rv.Mem.Loop.{host_lt}
use rv.Mem.Endian.{word_bytes}
use rv.Engine.Init.{
  load_lines, Parameters, Files, Blocks, engine_init, init_reg, clear_entry, clear_unit, init_units,
  init_mem, exb_create, exu_create, cdb_create, load_program,
}
use rv.Engine.Safety.Cycle.{HasMemory, length-word_bytes}

module _ (little : Bool) (size addr n : ℕ) where
  write_loop_total :
      (left i : ℕ) (d b : List ℕ)
      → left + i ≡ n
      → length d ≡ n
      → length b ≡ size
      → 0 < size
      → (b' : List ℕ) × (write_loop little size addr n left i d b ≡ some b') × (length b' ≡ size)
  unfolding write_loop
  write_loop_total zero i d b e l r s = (b, refl, r)
  write_loop_total (suc left) i d b e l r s =
      let k = u32 (addr + i) % size in
      let (v, found) =
        get_elem?-some d (host_index little n i) (omega (arith, host_lt little n i)) in
      let same = length-set b k v in
      let (b', runs, r') =
        write_loop_total left (i + 1) d (set b k v) (omega arith) l (same ∙ r) s in
      (b', rw (lt→ltb 0 size s, found, lt→ltb k (length b) (omega arith)) runs, r')

-- The file gives whole buffers.
abbrev pub Whole : List ℕ → Type 0
Whole buf = length buf ≡ 10

load_lines_total :
    (little : Bool) (strtol : List ℕ → ℕ) (a : ℕ) (bufs : List (List ℕ)) (b : List ℕ) (m : Mem)
    → All Whole bufs
    → HasMemory m b
    → (m' : Mem) × (b' : List ℕ) × (load_lines little strtol a bufs m ≡ some m') × HasMemory m' b'
unfolding load_lines mem_write
load_lines_total little strtol a [] b m h v = (m, b, refl, v)
load_lines_total little strtol a (buf ∷ bufs) b m h v =
    let word = word_bytes little (u32 (strtol (set buf 8 0))) in
    let (b₁, writes, room) =
      write_loop_total little m.mem_size a 4 4 0 word b refl
        (length-word_bytes little (u32 (strtol (set buf 8 0)))) v.room v.some_size in
    let m₁ : Mem = record m { mem = some b₁ } in
    let v₁ : HasMemory m₁ b₁ = record { block = refl; room = room; some_size = v.some_size } in
    let (m', b', rest, v') = load_lines_total little strtol (a + 4) bufs b₁ m₁ h.1 v₁ in
    (m', b', rw (lt→ltb 8 (length buf) (omega (arith, h.0)), v.block, writes) rest, v')

pub tags_zero : {n : ℕ} (k : ℕ) → 0 < n → All (TagOk n) (replicate k 0)
tags_zero zero h = tt
tags_zero (suc k) h = (h, tags_zero k h)

clear_entries : (n : ℕ) (xs : List ExbData) → All (EntryOk n) (map clear_entry xs)
clear_entries n [] = tt
clear_entries n (x ∷ xs) = ((λ b. absurd (ground arith)), clear_entries n xs)

clear_units : (n : ℕ) (us : List ExuData) → All (UnitOk n) (map clear_unit us)
clear_units n [] = tt
clear_units n (u ∷ us) = ((λ b. absurd (ground arith)), clear_units n us)

reg_create_frame :
    (x : List ℕ) (r : Reg) {r' : Reg}
    → reg_create 32 (some x) true true r ≡ some (pos 0, r')
    → (r'.size ≡ 32) × (r'.s ≡ replicate 32 0)
unfolding reg_create
reg_create_frame x r h = ground arith

fresh_reg :
    (n : ℕ) (x : List ℕ) (r : Reg)
    → length x ≡ 32
    → 0 < n
    → (r' : Reg) × (reg_create 32 (some x) true true r ≡ some (pos 0, r'))
      × RegIsValid r'
      × (r'.size ≡ 32)
      × All (TagOk n) r'.s
fresh_reg n x r l h =
    let (r', creates, valid) = reg_create-IsValid 32 x r l (omega arith) in
    let (size, zeros) = reg_create_frame x r creates in
    (r', creates, valid, size, rw zeros (tags_zero 32 h))

fresh_rob :
    (size : ℕ) (entries : List RobData) (r : Rob)
    → r.size ≡ 0
    → 0 < size
    → size ≤ 256
    → length entries ≡ size
    → (r' : Rob) × (rob_create size (some entries) r ≡ (pos 0, r'))
      × RobIsValid r'
      × (r'.size ≡ size)
unfolding rob_create
fresh_rob size entries r empty pos_ small room =
    let test : (ltb 0 r.size || size == 0) ≡ false = ground arith in
    (
      record { commit_ptr = 0; issue_ptr = 0; size = size; cnt = 0; entries = entries },
      rw test refl,
      ground arith,
      refl,
    )

-- Every allocation succeeds, with memory of any content.
abbrev pub given :
    List ExbData → List RobData → List ℕ → List ExuData → List CdbData → List ℕ → Blocks
given buf entries x units lane block = record {
  exb_buf = some buf;
  exb_ready = true;
  rob_data = some entries;
  reg_x = some x;
  reg_s = true;
  reg_d = true;
  exu_units = some units;
  exu_ready = true;
  exu_done = true;
  cdb_lane = some lane;
  mem_block = some block;
}

-- What `engine_init` asks of its parameters and of the memory that it gets.
pub record Fit (p : Parameters) (entries : List RobData) (x : List ℕ) (units : List ExuData)
    (lane : List CdbData) (block : List ℕ) : Type 0 where
  pub some_entries : 0 < p.rob_size
  pub few_entries : p.rob_size ≤ 256
  pub entries_room : length entries ≡ p.rob_size
  pub registers : p.reg_size ≡ 32
  pub x_room : length x ≡ 32
  pub lanes : All (LaneOk p.rob_size) lane
  pub some_memory : 0 < p.mem_size
  pub memory_room : length block ≡ p.mem_size

module _ (little : Bool) (enomem : ℕ) (p : Parameters) (f : Files) (buf : List ExbData) where
  -- When all allocations succeed, with blocks of the sizes asked for, and the program is a file of
  -- whole lines, `engine_init` does not fault, returns 0, and leaves a valid engine with a memory,
  -- for 1 to 256 reorder buffer entries, 32 registers, a memory that is not empty, and any numbers
  -- of units, lanes and execution buffer entries; the reorder buffer must not have been created
  -- before, and a lane that `malloc` hands out marked valid must carry a tag inside it.
  pub engine_init-IsValid :
      {bufs : List (List ℕ)} {entries : List RobData} {x : List ℕ} {units : List ExuData}
      {lane : List CdbData} {block : List ℕ} (e : Engine)
      → f.lines ≡ some bufs
      → All Whole bufs
      → Fit p entries x units lane block
      → e.rob.size ≡ 0
      → (e' : Engine) × (b' : List ℕ) × (engine_init little enomem p f
            (given buf entries x units lane block)
            e
          ≡ some (pos 0, e'))
        × IsValid p.rob_size e'
        × HasMemory e'.mem b'
  unfolding engine_init init_reg init_units init_mem exb_create exu_create cdb_create mem_create
      load_program
  engine_init-IsValid {bufs} {entries} {x} {units} {lane} {block} e lines whole fit empty =
      let (rob, makes, rob_valid, size) =
        fresh_rob p.rob_size entries e.rob empty fit.some_entries fit.few_entries
          fit.entries_room in
      let (reg, creates, reg_valid, registers, tags) =
        fresh_reg p.rob_size x e.reg fit.x_room fit.some_entries in
      let m : Mem = record { mem = some block; mem_size = p.mem_size } in
      let (m', b', loads, has) =
        load_lines_total little f.strtol 0 bufs block m whole
          (record { block = refl; room = fit.memory_room; some_size = fit.some_memory }) in
      let ready : Engine = record e {
        exb = record { buf = map clear_entry buf; ready_list = [] };
        rob = rob;
        reg = reg;
        exu = record { units = map clear_unit units; ready_list = []; done_list = [] };
        cdb = record { nb_active_lanes = 0; lane = lane };
        mem = m';
      } in
      (
        ready,
        b',
        rw (makes, fit.registers, creates, lines, loads) refl,
        record {
          rob = rob_valid;
          rob_size = size;
          reg = reg_valid;
          registers = registers;
          tags = tags;
          lanes = fit.lanes;
          units = clear_units p.rob_size units;
          entries = clear_entries p.rob_size buf;
        },
        has,
      )
