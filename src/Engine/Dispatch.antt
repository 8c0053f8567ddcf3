-- ===== src/Engine/Dispatch.antt =====
-- `dispatch` of sw/src/engine.c: the instruction gets a reorder buffer entry, its operands or their
-- tags, and a place in the execution buffer.
use rv.Common.{
  ◌==◌, if◌then◌else◌, ◌>>=◌, ℕ, ◌*◌, ◌^◌, bit_or, Bool, true, false, Option, none, some, List, [],
  ◌∷◌,
}
use rv.Int.{ℤ, pos, negsuc}
use rv.Rob.{Rob, rob_issue, rob_read, rob_full}
use rv.Reg.{Reg, reg_read_src, reg_read_data, reg_write_src}
use rv.Decoder.{InstField, decode, op_imm, op_load, op_store, op_auipc}
use rv.Engine.State.{Engine, CdbData, ExbData, first_match}

-- What the local variables hold before they are assigned.
pub record Locals : Type 0 where
  pub qr : ℕ
  pub qj : ℕ
  pub qk : ℕ
  pub vj : ℕ
  pub vk : ℕ

-- A value as far as it is known, and whether it is.
pub record Source : Type 0 where
  pub q : ℕ
  pub v : ℕ
  pub r : Bool

-- Up to the label OP_J_DONE.
unfoldable pub operand_j : ℕ → Locals → List CdbData → Rob → Reg → Option Source
operand_j rs1 junk lanes rob reg = do
  (dirty, out) ← reg_read_src rs1 (some junk.qj) reg
  qj ← out
  if dirty
      then elim (first_match qj lanes) [
        | some v ↦ some (record { q = qj; v = v; r = true })
        | none ↦ do (done, v) ← rob_read qj junk.vj rob; some (record { q = qj; v = v; r = done })
      ]
      else (do
        (_, out') ← reg_read_data rs1 (some junk.vj) reg
        v ← out'
        some (record { q = qj; v = v; r = true }))

-- What the code from OP_J_DONE to OP_K_DONE leaves behind; it may write `vj` once more.
pub record SecondSource : Type 0 where
  pub f10 : ℕ
  pub qk : ℕ
  pub vk : ℕ
  pub rk : Bool
  pub vj : ℕ

-- `(inst.funct7 << 3) | inst.funct3`, the number that the ALU knows an operation by.
abbrev pub operation : InstField → ℕ
operation inst = bit_or (inst.funct7 * 2 ^ 3) inst.funct3

-- The `default` case: the second operand is a register. A result that waits in the reorder buffer
-- is read into `vj`.
unfoldable pub operand_k : InstField → Locals → ℕ → List CdbData → Rob → Reg → Option SecondSource
operand_k inst junk vj lanes rob reg = do
  let f10 = operation inst
  (dirty, out) ← reg_read_src inst.rs2 (some junk.qk) reg
  qk ← out
  if dirty
      then elim (first_match qk lanes) [
        | some v ↦ some (record { f10 = f10; qk = qk; vk = v; rk = true; vj = vj })
        | none ↦ do
          (done, v) ← rob_read qk vj rob
          some (record { f10 = f10; qk = qk; vk = junk.vk; rk = done; vj = v })
      ]
      else (do
        (_, out') ← reg_read_data inst.rs2 (some junk.vk) reg
        v ← out'
        some (record { f10 = f10; qk = qk; vk = v; rk = true; vj = vj }))

abbrev immediate_source : ℕ → InstField → ℕ → Option SecondSource
immediate_source f10 inst vj =
    some (record { f10 = f10; qk = 0; vk = inst.immediate; rk = true; vj = vj })

-- `switch(inst.opcode)`
unfoldable pub second_source :
    InstField → Locals → ℕ → List CdbData → Rob → Reg → Option SecondSource
second_source inst junk vj lanes rob reg =
    if inst.opcode == op_imm
    then immediate_source inst.funct3 inst vj
    else if inst.opcode == op_load
    then immediate_source 0 inst vj
    else if inst.opcode == op_store
    then immediate_source 0 inst vj
    else if inst.opcode == op_auipc
    then immediate_source 0 inst vj
    else operand_k inst junk vj lanes rob reg

-- The first free place takes the entry; without one the entry is dropped.
unfoldable pub place : ExbData → List ExbData → List ExbData
place entry [] = []
place entry (x ∷ xs) = if x.busy then x ∷ place entry xs else entry ∷ xs

-- The entry that goes into the execution buffer.
abbrev pub new_entry : ℕ → Source → SecondSource → ExbData
new_entry qr j k = record {
  f10 = k.f10;
  vj = k.vj;
  vk = k.vk;
  qj = j.q;
  qk = k.qk;
  qr = qr;
  rj = j.r;
  rk = k.rk;
  dirty = false;
  busy = true;
}

-- `dispatch` from `rob_issue` on.
unfoldable pub enter : Locals → InstField → Engine → Option (ℤ × Engine)
enter junk inst e = do
  (_, out, rob) ← rob_issue inst.rd (some junk.qr) e.rob
  qr ← out
  j ← operand_j inst.rs1 junk e.cdb.lane rob e.reg
  k ← second_source inst junk j.v e.cdb.lane rob e.reg
  (_, reg) ← reg_write_src inst.rd qr e.reg
  some (
    pos 0,
    record e {
      rob = rob;
      reg = reg;
      exb = record (e.exb) { buf = place (new_entry qr j k) e.exb.buf };
    },
  )

unfoldable pub dispatch : Locals → Engine → Option (ℤ × Engine)
dispatch junk e =
    if e.instruction == 0
    then some (negsuc 0, e)
    else if rob_full e.rob
    then some (negsuc 0, e)
    else enter junk (decode e.instruction) e
