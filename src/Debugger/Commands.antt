-- ===== src/Debugger/Commands.antt =====
-- The commands of sw/ELE749_projet1-develop/src/debugger.c. What is printed, and what `dump` writes
-- to its file, is left out.
use rv.Common.{
  ltb, ◌==◌, if◌then◌else◌, ◌>>=◌, length, get_elem?, ℕ, ◌%◌, ◌^◌, Bool, true, false, not, Option,
  none, some, List, [], ◌∷◌,
}
use rv.Proc.{proc_get_pc, proc_set_pc, proc_write_mem}
use rv.Rv32.Codes.{InstSet}
use rv.Rv32.Types.{decode_instruction_length}
use rv.Rv32.Data.{object_of}
use rv.Rv32.Machine.{
  SimulatorState, SimulatorExecMode, BreakNode, Machine, Debugger, simulator_set_state,
  simulator_set_exec_mode,
}
use rv.Rv32.Execute.{run_instruction}
use rv.Rv32.Simulator.{simulator_decode, simulator_fetch}
use rv.Debugger.Text.{same_text, strtol, to_u32}
use rv.Debugger.Breaks.{
  ebreak_inst, c_ebreak_inst, break_list_append, break_list_get_instruction, break_list_disable_all,
  break_list_enable_all, is_addr_valid, write_inst, break_node_create, break_list_remove,
  break_list_remove_all, break_list_disable, break_list_enable,
}

abbrev pub all_word : List ℕ
all_word = b'a' ∷ b'l' ∷ b'l' ∷ []

unfoldable pub exit_cmd : Machine → Machine
exit_cmd m = simulator_set_state SimulatorState.simulator_stop m

module _ (little : Bool) (long_max : ℕ) where
  -- The argument with a given number, as a `uint32_t`.
  abbrev pub address_arg : ℕ → Machine → Option ℕ
  address_arg i m = do s ← get_elem? m.debugger_cmd.argv i; some (to_u32 (strtol long_max s))

  -- The switch on the length of the instruction that is covered.
  unfoldable pub place_break : InstSet → BreakNode → Machine → Option Machine
  place_break InstSet.rv32e new_node m = do
    p ← write_inst little new_node.addr ebreak_inst new_node.inst_len m.proc
    some (record m { proc = p; break_list = break_list_append new_node m.break_list })
  place_break InstSet.rvc new_node m =
      let short : BreakNode = record new_node { inst = new_node.inst % 2 ^ 16; inst_len = 2 } in
      do
        p ← write_inst little short.addr c_ebreak_inst short.inst_len m.proc
        some (record m { proc = p; break_list = break_list_append short m.break_list })

  unfoldable pub break_cmd : Bool → Machine → Option Machine
  break_cmd malloc m = if ltb (length m.debugger_cmd.argv) 2 then some m else do
    addr ← address_arg 1 m
    if not (is_addr_valid addr)
        then some m
        else if not (break_list_get_instruction addr m.break_list == 0)
        then some m
        else do
          created ← break_node_create little malloc addr m.proc
          elim created [
            | none ↦ some m
            | some new_node ↦ place_break (decode_instruction_length new_node.inst) new_node m
          ]

  unfoldable pub jump_cmd : Machine → Option Machine
  jump_cmd m = if ltb (length m.debugger_cmd.argv) 2 then some m else do
    addr ← address_arg 1 m
    if not (is_addr_valid addr) then some m else do
      f ← simulator_fetch little (record m { proc = (proc_set_pc addr m.proc).1 })
      simulator_decode f.0 f.1

  unfoldable pub delete_cmd : Machine → Option Machine
  delete_cmd m = if ltb (length m.debugger_cmd.argv) 2 then some m else do
    s ← get_elem? m.debugger_cmd.argv 1
    if same_text s all_word
        then (do
          p ← break_list_remove_all little m.break_list m.proc
          some (record m { proc = p; break_list = [] }))
        else do
          addr ← address_arg 1 m
          r ← break_list_remove little addr m.break_list m.proc
          some (record m { proc = r.2; break_list = r.1 })

  unfoldable pub disable_cmd : Machine → Option Machine
  disable_cmd m = if not (length m.debugger_cmd.argv == 2) then some m else do
    s ← get_elem? m.debugger_cmd.argv 1
    if same_text s all_word
        then some (record m { break_list = (break_list_disable_all m.break_list).1 })
        else do
          addr ← address_arg 1 m
          r ← break_list_disable little addr m.break_list m.proc
          some (record m { proc = r.2; break_list = r.1 })

  unfoldable pub enable_cmd : Machine → Option Machine
  enable_cmd m = if not (length m.debugger_cmd.argv == 2) then some m else do
    s ← get_elem? m.debugger_cmd.argv 1
    if same_text s all_word
        then some (record m { break_list = (break_list_enable_all m.break_list).1 })
        else do
          addr ← address_arg 1 m
          r ← break_list_enable little addr m.break_list m.proc
          some (record m { proc = r.2; break_list = r.1 })

  -- One byte is written.
  unfoldable pub write_cmd : Machine → Option Machine
  write_cmd m = if not (length m.debugger_cmd.argv == 3) then some m else do
    addr ← address_arg 1 m
    v ← address_arg 2 m
    r ← proc_write_mem little addr (some (object_of little 1 (v % 2 ^ 8))) 1 m.proc
    some (record m { proc = r.1 })

module _ (little : Bool) (debugger : Debugger) where
  -- The instruction under a breakpoint at the program counter; 0 stands for no breakpoint.
  abbrev pub run_hidden : Machine → Option Machine
  run_hidden m =
      let inst = break_list_get_instruction (proc_get_pc m.proc) m.break_list in
      elim (inst == 0) [ true ↦ some m | false ↦ run_instruction little debugger inst m ]

  unfoldable pub step_cmd : Machine → Option Machine
  step_cmd m = do
    m' ← run_hidden m
    some (simulator_set_exec_mode SimulatorExecMode.simulator_step m')

  unfoldable pub continue_cmd : Machine → Option Machine
  continue_cmd m = do
    m' ← run_hidden m
    some (simulator_set_exec_mode SimulatorExecMode.simulator_continue m')
