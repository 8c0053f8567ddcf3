-- ===== src/Debugger/Tests.antt =====
-- Witnesses for the theorems about sw/ELE749_projet1-develop/src/debugger.c.
use rv.Common.{
  ◌>>=◌, get_elem?, replicate, ℕ, ◌-◌, ◌^◌, ◌<◌, ◌≡◌, refl, ◌↔◌, Bool, true, some, List, [], ◌∷◌,
  arith,
}
use rv.Proc.{proc_memsize, ProcState, proc_write_reg, proc_read_reg}
use rv.Proc.Invariant.{IsValid}
use rv.Rv32.Encoding.{Encodes}
use rv.Rv32.Effect.{run_instruction-immediate_effect}
use rv.Rv32.Execute.{run_instruction}
use rv.Alu.{alu_exec}
use rv.Rv32.Machine.{SimulatorState, BreakNode, DebuggerBaseCmd, Machine}
use rv.Rv32.Simulator.{round, simulator_run, load_program_in_memory}
use rv.Rv32.Program.{Loaded, load_program_in_memory-Loaded}
use rv.Rv32.Safety.Round.{ValidOutcome}
use rv.Rv32.Sample.{zeros-bytes, block, on, on-IsValid, with_proc}
use rv.Debugger.Text.{strtok, hex_digits, skip_space, skip_prefix, signed_hex, to_u32}
use rv.Debugger.Breaks.{ebreak_inst, break_list_get_instruction, is_addr_valid}
use rv.Debugger.Names.{delete_base_cmd_str, debugger_base_cmd_str}
use rv.Debugger.Commands.{all_word, break_cmd, delete_cmd}
use rv.Debugger.Session.{is_name, find_cmd, debugger_session, whole_session}
use rv.Debugger.Safety.{simulator_run-whole_session}
use rv.Debugger.Ends.{Untouched, debugger_session-exit}
use rv.Debugger.Memory.{Bytes}
use rv.Debugger.Undo.{delete_cmd-break_cmd}
use rv.Debugger.Table.{Walks, break_list-Walks}
use rv.Debugger.Words.{find_cmd_iff}
use rv.Debugger.Hit.{at_hit, after_hit, round-continue}

abbrev long_max : ℕ
long_max = 2 ^ 31 - 1

abbrev always : Machine → Bool
always m = true

-- "H", "C" and "Quit", each with its newline.
abbrev h_line : List ℕ
h_line = b'H' ∷ b'\n' ∷ []

abbrev c_line : List ℕ
c_line = b'C' ∷ b'\n' ∷ []

abbrev quit_line : List ℕ
quit_line = b'Q' ∷ b'u' ∷ b'i' ∷ b't' ∷ b'\n' ∷ []

abbrev with_input : List (List ℕ) → Machine
with_input lines = record (with_proc on) { stdin = lines }

block-Bytes : Bytes block
block-Bytes = zeros-bytes proc_memsize

simulator_run-whole_session_example : ValidOutcome (
    simulator_run true
      (whole_session true long_max always)
      4
      (with_input (h_line ∷ quit_line ∷ [])))
simulator_run-whole_session_example =
    simulator_run-whole_session true long_max always 4 (with_input (h_line ∷ quit_line ∷ []))
      (block, on-IsValid)

debugger_session-exit_example :
    (m' : Machine) × (debugger_session true long_max always 2 0
        (with_input (h_line ∷ quit_line ∷ []))
      ≡ some m')
    × (m'.state ≡ SimulatorState.simulator_stop)
    × (m'.stdin ≡ [])
    × Untouched (with_input (h_line ∷ quit_line ∷ [])) m'
unfolding strtok find_cmd
debugger_session-exit_example =
    debugger_session-exit true long_max always 2 0 (h_line ∷ []) quit_line []
      (with_input (h_line ∷ quit_line ∷ [])) refl (((λ e. cc), refl), tt) refl (omega arith)

-- The state in which `b 4` is executed.
abbrev at_break : Machine
at_break = record (with_proc on) {
  debugger_cmd = record { cmd = DebuggerBaseCmd.break; argv = (b'b' ∷ []) ∷ (b'4' ∷ []) ∷ [] };
}

delete_cmd-break_cmd_example :
    (break_cmd true long_max true at_break >>= delete_cmd true long_max) ≡ some at_break
unfolding is_addr_valid skip_space signed_hex skip_prefix hex_digits to_u32
delete_cmd-break_cmd_example =
    delete_cmd-break_cmd long_max at_break (b'4' ∷ []) on-IsValid block-Bytes refl refl refl refl tt

-- The state in which `dis all` is executed.
abbrev at_disable : Machine
at_disable = record (with_proc on) {
  debugger_cmd = record {
    cmd = DebuggerBaseCmd.disable;
    argv = (b'd' ∷ b'i' ∷ b's' ∷ []) ∷ all_word ∷ [];
  };
}

abbrev node : BreakNode
node = record { addr = 0; inst = 0xFFD00293; inst_len = 4; is_enabled = true }

break_list-Walks_example : Walks true 0 (node ∷ []) on
break_list-Walks_example = break_list-Walks true 0 (node ∷ []) on

find_cmd_iff_example :
    (find_cmd (b'd' ∷ []) debugger_base_cmd_str ≡ DebuggerBaseCmd.delete)
    ↔ (is_name (b'd' ∷ []) delete_base_cmd_str ≡ true)
find_cmd_iff_example = find_cmd_iff (b'd' ∷ []) DebuggerBaseCmd.delete refl

-- The memory with EBREAK over the first instruction.
covered :
    (b' : List ℕ) × (load_program_in_memory true 0 ((ebreak_inst, 4) ∷ []) on
      ≡ some (record on { mem = some b' }))
    × IsValid (record on { mem = some b' }) b'
    × Loaded true b' 0 (ebreak_inst ∷ [])
    × ((k : ℕ) → k < 0 → get_elem? b' k ≡ get_elem? block k)
covered = load_program_in_memory-Loaded true (ebreak_inst ∷ []) 0 on block on-IsValid (omega arith)

abbrev stopped_at : Machine
stopped_at = record (with_proc (record on { mem = some covered.0 })) {
  stdin = c_line ∷ [];
  break_list = node ∷ [];
}

abbrev after_addi : ProcState
after_addi = record {
  pc = 0;
  x = 0 ∷ 5 ∷ 5 ∷ 5 ∷ 5 ∷ 0xFFFFFFFD ∷ replicate 10 5;
  mem = some covered.0;
}

runs_addi :
    run_instruction true
      (debugger_session true long_max always 0)
      0xFFD00293
      (at_hit c_line [] stopped_at)
    ≡ some (record (at_hit c_line [] stopped_at) { proc = after_addi })
unfolding proc_read_reg proc_write_reg alu_exec
runs_addi =
    run_instruction-immediate_effect true (debugger_session true long_max always 0) 0xFFD00293
      (at_hit c_line [] stopped_at) (Encodes.addi_word refl refl) (omega arith) refl refl

round-continue_example :
    round true (debugger_session true long_max always 1) stopped_at
    ≡ some (after_hit c_line [] after_addi stopped_at)
unfolding strtok find_cmd break_list_get_instruction
round-continue_example =
    round-continue true long_max always 0 c_line [] stopped_at 0xFFD00293 after_addi covered.2
      covered.3.0 refl refl refl refl refl refl runs_addi
