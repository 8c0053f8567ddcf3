-- ===== src/Rv32/Machine.antt =====
-- The state of simulator.c and debugger.c in sw/ELE749_projet1-develop/src, and the instructions
-- that reach it. A session of the debugger is a parameter here: session number `n` takes the state
-- at its start to the state at its end. The tree Debugger models the sessions.
use rv.Common.{◌>>=◌, ℕ, ◌+◌, Bool, Option, some, List}
use rv.Int.{ℤ}
use rv.Proc.{ProcState}
use rv.Rv32.Codes.{Inst, InstSet}

-- `struct instruction`
pub record Instruction : Type 0 where
  pub inst : ℕ
  pub decoded_inst : Inst
  pub inst_type : ℤ
  pub inst_ext : InstSet

pub data SimulatorState : Type 0 where
  simulator_run_state simulator_stop : SimulatorState

pub data SimulatorExecMode : Type 0 where
  simulator_step simulator_continue : SimulatorExecMode

-- `struct breakNode`; the list is `breakList`, and `next` its order.
pub record BreakNode : Type 0 where
  pub addr : ℕ
  pub inst : ℕ
  pub inst_len : ℕ
  pub is_enabled : Bool

-- `enum debuggerBaseCmd`
pub data DebuggerBaseCmd : Type 0 where
  break jump delete disable enable print dump step continue help exit write : DebuggerBaseCmd
  not_a_cmd : DebuggerBaseCmd

-- `struct debuggerCmd`; `argc` is the length of `argv`.
pub record DebuggerCmd : Type 0 where
  pub cmd : DebuggerBaseCmd
  pub argv : List (List ℕ)

-- The processor, `simulatorInst`, `simulatorState` and `simulatorExecMode`, the number of
-- sessions of the debugger so far, `breakList`, `debuggerCmd`, and the lines that `fgets` will
-- still read from the standard input.
pub record Machine : Type 0 where
  pub proc : ProcState
  pub inst : Instruction
  pub state : SimulatorState
  pub mode : SimulatorExecMode
  pub session : ℕ
  pub break_list : List BreakNode
  pub debugger_cmd : DebuggerCmd
  pub stdin : List (List ℕ)

abbrev pub Debugger : Type 0
Debugger = ℕ → Machine → Option Machine

unfoldable pub simulator_set_state : SimulatorState → Machine → Machine
simulator_set_state s m = record m { state = s }

unfoldable pub simulator_set_exec_mode : SimulatorExecMode → Machine → Machine
simulator_set_exec_mode mode m = record m { mode = mode }

unfoldable pub simulator_get_instruction : Machine → Instruction
simulator_get_instruction m = m.inst

unfoldable pub ecall : Machine → Machine
ecall m = simulator_set_state SimulatorState.simulator_stop m

abbrev pub debugger_run : Debugger → Machine → Option Machine
debugger_run debugger m = do m' ← debugger m.session m; some (record m' { session = m.session + 1 })

-- The two `print` commands before the session are left out: of the state they change only
-- `debuggerCmd`, which the next command sets again.
unfoldable pub ebreak : Debugger → Machine → Option Machine
ebreak debugger m = debugger_run debugger m

-- An instruction of the processor alone.
abbrev pub on_proc : (ProcState → Option ProcState) → Machine → Option Machine
on_proc f m = do p ← f m.proc; some (record m { proc = p })
