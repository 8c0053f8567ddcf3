-- ===== src/Rv32/Safety/Accesses.antt =====
-- The loads and stores of sw/ELE749_projet1-develop/src/instructionsRV32E.c leave a valid
-- processor.
use rv.Common.{◌==◌, ◌>>=◌, ℕ, ◌+◌, ◌%◌, ◌^◌, Bool, some}
use rv.Proc.{ProcState, proc_read_reg, proc_write_mem}
use rv.Word.{u8, u32}
use rv.Rv32.Data.{IType, SType, put, sext8, sext16, write_value, read_value, object_of}
use rv.Rv32.Transfer.{
  store_word, load_word, store_byte, load_byte, store_halfword, load_halfword, load_byte_unsigned,
  load_half_unsigned,
}
use rv.Rv32.Execute.{run_store, run_load}
use rv.Rv32.Safety.Sound.{
  Valid, Sound, Sound-bind, Sound-if, Sound-some, put-Sound, proc_write_mem-Valid,
}

module _ (little : Bool) where
  load-Sound :
      (n : ℕ) (g : ℕ → ℕ) (d : IType) {p : ProcState}
      → Valid p
      → Sound (
          proc_read_reg d.rs1 p >>= λ a.
          read_value little n (u32 (d.imm + a)) p >>= λ v. put d.rd (g v) p)
  load-Sound n g d {p} v = Sound-bind (proc_read_reg d.rs1 p) (λ a _.
      Sound-bind (read_value little n (u32 (d.imm + a)) p) (λ val _. put-Sound d.rd (g val) v))

  write_value-Sound :
      (n addr val : ℕ) {p : ProcState} → Valid p → Sound (write_value little n addr val p)
  write_value-Sound n addr val {p} v =
      Sound-bind (proc_write_mem little addr (some (object_of little n val)) n p)
        (λ r e. Sound-some (proc_write_mem-Valid little addr n (object_of little n val) v e))

  store-Sound :
      (n : ℕ) (g : ℕ → ℕ) (d : SType) {p : ProcState}
      → Valid p
      → Sound (
          proc_read_reg d.rs1 p >>= λ a.
          proc_read_reg d.rs2 p >>= λ v. write_value little n (u32 (d.imm + a)) (g v) p)
  store-Sound n g d {p} v = Sound-bind (proc_read_reg d.rs1 p) (λ a _.
      Sound-bind (proc_read_reg d.rs2 p) (λ val _. write_value-Sound n (u32 (d.imm + a)) (g val) v))

  pub load_word-Sound : (d : IType) {p : ProcState} → Valid p → Sound (load_word little d p)
  unfolding load_word
  load_word-Sound d v = load-Sound 4 (λ a. a) d v

  pub store_word-Sound : (d : SType) {p : ProcState} → Valid p → Sound (store_word little d p)
  unfolding store_word
  store_word-Sound d v = store-Sound 4 (λ a. a) d v

  pub run_load-Sound :
      (f3 : ℕ) (d : IType) {p : ProcState} → Valid p → Sound (run_load little f3 d p)
  unfolding run_load load_byte load_halfword load_byte_unsigned load_half_unsigned
  run_load-Sound f3 d v = Sound-if (f3 == 0) (load-Sound 1 (λ a. sext8 a) d v) (
      Sound-if (f3 == 1) (load-Sound 2 (λ a. sext16 a) d v) (
        Sound-if (f3 == 2) (load_word-Sound d v) (
          Sound-if (f3 == 4) (load-Sound 1 (λ a. a) d v)
            (Sound-if (f3 == 5) (load-Sound 2 (λ a. a) d v) (Sound-some v)))))

  pub run_store-Sound :
      (f3 : ℕ) (d : SType) {p : ProcState} → Valid p → Sound (run_store little f3 d p)
  unfolding run_store store_byte store_halfword
  run_store-Sound f3 d v = Sound-if (f3 == 0) (store-Sound 1 (λ a. u8 a) d v) (
      Sound-if (f3 == 1) (store-Sound 2 (λ a. a % 2 ^ 16) d v)
        (Sound-if (f3 == 2) (store_word-Sound d v) (Sound-some v)))
