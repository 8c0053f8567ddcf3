-- ===== src/Rv32/Simulator.antt =====
-- The simulator, sw/ELE749_projet1-develop/src/simulator.c. What is printed is left out.
use rv.Common.{
  if◌then◌else◌, ◌>>=◌, ℕ, zero, suc, ◌+◌, ◌%◌, ◌^◌, Bool, true, false, not, ◌||◌, Option, none,
  some, List, [], ◌∷◌,
}
use rv.Word.{u32}
use rv.Int.{ℤ}
use rv.Proc.{ProcState, proc_get_pc, proc_write_mem, proc_read_mem}
use rv.Rv32.Codes.{Inst, InstSet, rv32e_b_type, rv32e_j_type, rv32c_cj_type, same_int}
use rv.Rv32.Types.{decode_instruction_length, decode_instruction_type}
use rv.Rv32.Decode.{decode_instruction}
use rv.Rv32.Data.{move, object_of, object_value}
use rv.Rv32.Machine.{
  Instruction, SimulatorState, SimulatorExecMode, Machine, Debugger, debugger_run,
}
use rv.Rv32.Execute.{run_instruction}

abbrev pub is_running : SimulatorState → Bool
is_running SimulatorState.simulator_run_state = true
is_running SimulatorState.simulator_stop = false

abbrev pub is_step : SimulatorExecMode → Bool
is_step SimulatorExecMode.simulator_step = true
is_step SimulatorExecMode.simulator_continue = false

-- The instructions that `updatePC` names.
abbrev pub sets_pc : Inst → Bool
sets_pc Inst.rv32e_jalr = true
sets_pc Inst.c_jalr = true
sets_pc Inst.c_jr = true
sets_pc Inst.c_beqz = true
sets_pc Inst.c_bnez = true
sets_pc Inst.rv32e_ecall = true
sets_pc _ = false

-- The types that `updatePC` names: RV32C_CS_TYPE and RV32C_CIW_TYPE have the numbers of
-- RV32E_J_TYPE and RV32E_B_TYPE.
abbrev pub type_sets_pc : ℤ → Bool
type_sets_pc type =
    same_int type rv32e_j_type || same_int type rv32c_cj_type || same_int type rv32e_b_type

abbrev pub length_in_bytes : InstSet → ℕ
length_in_bytes InstSet.rv32e = 4
length_in_bytes InstSet.rvc = 2

unfoldable pub update_pc : Machine → Machine
update_pc m =
    if type_sets_pc m.inst.inst_type || sets_pc m.inst.decoded_inst || not (is_running m.state)
    then m
    else record m { proc = move (length_in_bytes m.inst.inst_ext) m.proc }

unfoldable pub simulator_decode : ℕ → Machine → Option Machine
simulator_decode w m = do
  decoded ← decode_instruction w
  type ← decode_instruction_type w
  let ext = decode_instruction_length w
  let kept : ℕ = elim ext [ InstSet.rvc ↦ w % 2 ^ 16 | InstSet.rv32e ↦ w ]
  let i : Instruction = record {
    inst = kept;
    decoded_inst = decoded;
    inst_type = type;
    inst_ext = ext;
  }
  some (record m { inst = i })

module _ (little : Bool) where
  -- Without a memory the last instruction stays.
  unfoldable pub simulator_fetch : Machine → Option (ℕ × Machine)
  simulator_fetch m = do
    r ← proc_read_mem little (proc_get_pc m.proc) (some (object_of little 4 m.inst.inst)) 4 m.proc
    d ← r.1
    let w = object_value little d
    some (w, record m { inst = record m.inst { inst = w } })

  -- `loadProgramInMemory`: the arrays of instructions and of their lengths in bytes, from the
  -- program reader.
  unfoldable pub load_program_in_memory : ℕ → List (ℕ × ℕ) → ProcState → Option ProcState
  load_program_in_memory at [] p = some p
  load_program_in_memory at ((w, n) ∷ rest) p = do
    r ← proc_write_mem little at (some (object_of little 4 w)) n p
    load_program_in_memory (u32 (at + n)) rest r.1

-- The loop of `simulatorRun`, of which at most a given number of rounds is run.
pub data Outcome : Type 0 where
  stopped : Machine → Outcome
  still_running : Machine → Outcome
  undefined : Outcome

module _ (little : Bool) (debugger : Debugger) where
  unfoldable pub simulator_execute : Machine → Option Machine
  simulator_execute m = run_instruction little debugger m.inst.inst m

  -- One round of the loop of `simulatorRun`.
  unfoldable pub round : Machine → Option Machine
  round m = do
    f ← simulator_fetch little m
    decoded ← simulator_decode f.0 f.1
    ready ← (if is_step decoded.mode then debugger_run debugger decoded else some decoded)
    done ← simulator_execute ready
    some (update_pc done)

  unfoldable pub simulator_run : ℕ → Machine → Outcome
  simulator_run zero m = if is_running m.state then still_running m else stopped m
  simulator_run (suc rounds) m =
      if is_running m.state
      then (elim (round m) [ none ↦ undefined | some m' ↦ simulator_run rounds m' ])
      else stopped m
