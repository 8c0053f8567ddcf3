-- ===== src/Engine/Init.antt =====
-- `engine_init`, `engine_destroy` and `load_program` of sw/src/engine.c, with the functions that
-- create and destroy its structures.
use rv.Common.{
  if◌then◌else◌, ◌>>=◌, store, ℕ, zero, ◌+◌, Bool, true, false, ◌&&◌, Option, none, some, List, [],
  ◌∷◌, map,
}
use rv.Int.{ℤ, pos, negsuc}
use rv.Word.{u32}
use rv.Rob.{RobData, rob_create, rob_destroy}
use rv.Reg.{reg_create, reg_destroy}
use rv.Mem.{Mem, mem_create, mem_destroy, mem_write}
use rv.Mem.Endian.{word_bytes}
use rv.Engine.State.{Engine, Exb, ExbData, Exu, ExuData, Cdb, CdbData}

abbrev pub clear_entry : ExbData → ExbData
clear_entry x = record x { busy = false }

abbrev pub clear_unit : ExuData → ExuData
clear_unit u = record u { busy = false }

unfoldable pub exb_destroy : Exb → Exb
exb_destroy x = record { buf = []; ready_list = [] }

-- `buf` is what the first `malloc` returns; the other fails where its flag is false.
unfoldable pub exb_create : Option (List ExbData) → Bool → Exb → ℤ × Exb
unfolding exb_destroy
exb_create none ready_ok x = (negsuc 0, exb_destroy x)
exb_create (some buf) ready_ok x =
    if ready_ok
    then (pos 0, record { buf = map clear_entry buf; ready_list = [] })
    else (negsuc 0, exb_destroy x)

unfoldable pub exu_destroy : Exu → Exu
exu_destroy x = record { units = []; ready_list = []; done_list = [] }

unfoldable pub exu_create : Option (List ExuData) → Bool → Bool → Exu → ℤ × Exu
unfolding exu_destroy
exu_create none ready_ok done_ok x = (negsuc 0, exu_destroy x)
exu_create (some units) ready_ok done_ok x =
    if ready_ok && done_ok
    then (pos 0, record { units = map clear_unit units; ready_list = []; done_list = [] })
    else (negsuc 0, exu_destroy x)

unfoldable pub cdb_destroy : Cdb → Cdb
cdb_destroy c = record { nb_active_lanes = 0; lane = [] }

-- The lanes keep whatever `malloc` hands out.
unfoldable pub cdb_create : Option (List CdbData) → Cdb → ℤ × Cdb
unfolding cdb_destroy
cdb_create none c = (negsuc 0, cdb_destroy c)
cdb_create (some lane) c = (pos 0, record { nb_active_lanes = 0; lane = lane })

unfoldable pub engine_destroy : Engine → Engine
unfolding exb_destroy rob_destroy reg_destroy exu_destroy cdb_destroy mem_destroy
engine_destroy e = record e {
  exb = exb_destroy e.exb;
  rob = rob_destroy e.rob;
  reg = reg_destroy e.reg;
  exu = exu_destroy e.exu;
  cdb = cdb_destroy e.cdb;
  mem = mem_destroy e.mem;
}

-- The C library as `load_program` uses it: `lines` has the ten bytes of `buf` after each `fgets`
-- that succeeds, or is `none` if `fopen` fails, and `strtol` converts a text in base 16.
pub record Files : Type 0 where
  pub lines : Option (List (List ℕ))
  pub strtol : List ℕ → ℕ

-- The loop of `load_program` at address `a`.
unfoldable pub load_lines : Bool → (List ℕ → ℕ) → ℕ → List (List ℕ) → Mem → Option Mem
load_lines little strtol a [] m = some m
load_lines little strtol a (buf ∷ bufs) m = do
  buf' ← store buf 8 0
  let inst = u32 (strtol buf')
  (_, m') ← mem_write little a (some (word_bytes little inst)) 4 m
  load_lines little strtol (a + 4) bufs m'

unfoldable pub load_program : Bool → Files → Mem → Option (ℤ × Mem)
load_program little f m = elim f.lines [
  | none ↦ some (negsuc 0, m)
  | some bufs ↦ do m' ← load_lines little f.strtol 0 bufs m; some (pos 0, m')
]

-- `struct engine_parameters`, without `program`, which `Files` stands for, and without the sizes of
-- the arrays that `Blocks` holds.
pub record Parameters : Type 0 where
  pub mem_size : ℕ
  pub rob_size : ℕ
  pub reg_size : ℕ

-- What the calls of `malloc` and `calloc` return, in the order of the calls.
pub record Blocks : Type 0 where
  pub exb_buf : Option (List ExbData)
  pub exb_ready : Bool
  pub rob_data : Option (List RobData)
  pub reg_x : Option (List ℕ)
  pub reg_s : Bool
  pub reg_d : Bool
  pub exu_units : Option (List ExuData)
  pub exu_ready : Bool
  pub exu_done : Bool
  pub cdb_lane : Option (List CdbData)
  pub mem_block : Option (List ℕ)

-- `if((retval = …)) goto CLEANUP;`: a result that is not 0 ends the initialisation.
abbrev pub is_zero : ℤ → Bool
is_zero (pos zero) = true
is_zero _ = false

abbrev check : ℤ → Engine → Option (ℤ × Engine) → Option (ℤ × Engine)
check retval e rest = if is_zero retval then rest else some (retval, engine_destroy e)

module _ (little : Bool) (enomem : ℕ) (p : Parameters) (f : Files) (b : Blocks) where
  unfoldable pub init_mem : Engine → Option (ℤ × Engine)
  init_mem e =
      let (code, mem) = mem_create enomem p.mem_size b.mem_block e.mem in
      let e₁ = record e { mem = mem } in
      check (pos code) e₁ (do
        (retval, mem') ← load_program little f mem
        let e₂ = record e₁ { mem = mem' }
        check retval e₂ (some (pos 0, e₂)))

  unfoldable pub init_units : Engine → Option (ℤ × Engine)
  init_units e =
      let (retval, exu) = exu_create b.exu_units b.exu_ready b.exu_done e.exu in
      let e₁ = record e { exu = exu } in
      check retval e₁ (
        let (retval', cdb) = cdb_create b.cdb_lane e₁.cdb in
        let e₂ = record e₁ { cdb = cdb } in check retval' e₂ (init_mem e₂))

  unfoldable pub init_reg : Engine → Option (ℤ × Engine)
  init_reg e = do
    (retval, reg) ← reg_create p.reg_size b.reg_x b.reg_s b.reg_d e.reg
    let e₁ = record e { reg = reg }
    check retval e₁ (init_units e₁)

  unfoldable pub engine_init : Engine → Option (ℤ × Engine)
  engine_init e =
      let (retval, exb) = exb_create b.exb_buf b.exb_ready e.exb in
      let e₁ = record e { exb = exb } in
      check retval e₁ (
        let (retval', rob) = rob_create p.rob_size b.rob_data e₁.rob in
        let e₂ = record e₁ { rob = rob } in check retval' e₂ (init_reg e₂))
