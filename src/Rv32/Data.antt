-- ===== src/Rv32/Data.antt =====
-- The operand records of RV32E.h and RVC.h in sw/ELE749_projet1-develop/src, without the fields
-- `opcode`, `funct2`, `funct3`, `funct4`, `funct6` and `funct7`, which no instruction reads, and
-- how the instructions reach registers and memory. Immediates are patterns of an `int32_t`.
use rv.Common.{
  ltb, ◌==◌, if◌then◌else◌, ◌>>=◌, ◌>>◌, require, ℕ, zero, suc, ◌+◌, ◌-◌, ◌*◌, ◌/◌, ◌%◌, ◌^◌, Bool,
  not, Option, some, List, [], ◌∷◌, reverse,
}
use rv.Word.{abs32}
use rv.Proc.{ProcState, proc_write_reg, proc_update_pc, proc_write_mem, proc_read_mem}

pub record RType : Type 0 where
  pub rs2 : ℕ
  pub rs1 : ℕ
  pub rd : ℕ

pub record IType : Type 0 where
  pub imm : ℕ
  pub rs1 : ℕ
  pub rd : ℕ

pub record SType : Type 0 where
  pub imm : ℕ
  pub rs2 : ℕ
  pub rs1 : ℕ

pub record BType : Type 0 where
  pub imm : ℕ
  pub rs2 : ℕ
  pub rs1 : ℕ

pub record UType : Type 0 where
  pub imm : ℕ
  pub rd : ℕ

pub record JType : Type 0 where
  pub imm : ℕ
  pub rd : ℕ

pub record CrType : Type 0 where
  pub rd_rs1 : ℕ
  pub rs2 : ℕ

pub record CiType : Type 0 where
  pub imm : ℕ
  pub rd_rs1 : ℕ

pub record CssType : Type 0 where
  pub imm : ℕ
  pub rs2 : ℕ

-- The fields whose names end in `_p` have three bits.
pub record CiwType : Type 0 where
  pub imm : ℕ
  pub rd_p : ℕ

pub record ClType : Type 0 where
  pub imm : ℕ
  pub rs1_p : ℕ
  pub rd_p : ℕ

pub record CsType : Type 0 where
  pub imm : ℕ
  pub rs1_p : ℕ
  pub rs2_p : ℕ

pub record CaType : Type 0 where
  pub rd_p_rs1_p : ℕ
  pub rs2_p : ℕ

pub record CbType : Type 0 where
  pub offset : ℕ
  pub rs1_p : ℕ

pub record CjType : Type 0 where
  pub jumptarget : ℕ

-- `procWriteReg` and `procUpdatePC`, their results unused.
abbrev pub put : ℕ → ℕ → ProcState → Option ProcState
put rd val p = do w ← proc_write_reg rd val p; some w.1

abbrev pub move : ℕ → ProcState → ProcState
move offset p = (proc_update_pc offset p).1

-- The bytes of a number of `n` bytes, the lowest first, and the number that bytes stand for.
unfoldable pub bytes_of : ℕ → ℕ → List ℕ
bytes_of zero v = []
bytes_of (suc n) v = v % 256 ∷ bytes_of n (v / 256)

unfoldable pub value_of : List ℕ → ℕ
value_of [] = 0
value_of (b ∷ bs) = b + 256 * value_of bs

module _ (little : Bool) where
  -- The object representation of a number of `n` bytes on the host.
  abbrev pub object_of : ℕ → ℕ → List ℕ
  object_of n v = if little then bytes_of n v else reverse (bytes_of n v)

  abbrev pub object_value : List ℕ → ℕ
  object_value d = value_of (if little then d else reverse d)

  -- An unset variable of `n` bytes is given to `procReadMem` and then read.
  abbrev pub read_value : ℕ → ℕ → ProcState → Option ℕ
  read_value n addr p = do
    r ← proc_read_mem little addr (some (object_of n 0)) n p
    require (r.0 == n)
    d ← r.1
    some (object_value d)

  -- `procWriteMem` of a variable of `n` bytes.
  abbrev pub write_value : ℕ → ℕ → ℕ → ProcState → Option ProcState
  write_value n addr v p = do w ← proc_write_mem little addr (some (object_of n v)) n p; some w.1

-- The conversion of an `int8_t` and of an `int16_t` to `int32_t`.
abbrev pub sext8 : ℕ → ℕ
sext8 v = if ltb v (2 ^ 7) then v else v + (2 ^ 32 - 2 ^ 8)

abbrev pub sext16 : ℕ → ℕ
sext16 v = if ltb v (2 ^ 15) then v else v + (2 ^ 32 - 2 ^ 16)

-- `abs` of an `int32_t`: of INT32_MIN it is undefined.
abbrev pub abs_int : ℕ → Option ℕ
abs_int w = require (not (w == 2 ^ 31)) >> some (abs32 w)
