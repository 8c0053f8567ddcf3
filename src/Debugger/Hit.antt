-- ===== src/Debugger/Hit.antt =====
-- A breakpoint that the program reaches, for `continueCmd` of
-- sw/ELE749_projet1-develop/src/debugger.c in the loop of simulator.c.
use rv.Common.{
  ◌==◌, ◌>>=◌, ℕ, suc, ◌+◌, ◌≡◌, refl, sym, subst, ap, ◌∙◌, Bool, true, false, Option, some, List,
  ◌∷◌, arith,
}
use rv.Proc.{ProcState, proc_get_pc}
use rv.Proc.Invariant.{IsValid}
use rv.Rv32.Codes.{Inst}
use rv.Rv32.Types.{decode_instruction_length, base_type, decode_instruction_type}
use rv.Rv32.Decode.{decode_base, decode_instruction}
use rv.Rv32.Data.{move}
use rv.Rv32.Machine.{
  SimulatorState, SimulatorExecMode, DebuggerBaseCmd, Machine, Debugger, simulator_set_exec_mode,
  debugger_run, ebreak,
}
use rv.Rv32.Operands.{base_operands}
use rv.Rv32.Execute.{run_base, run_instruction}
use rv.Rv32.Simulator.{update_pc, round}
use rv.Rv32.Program.{Holds}
use rv.Rv32.Halt.{decoded_long, round-long}
use rv.Debugger.Breaks.{ebreak_inst, break_list_get_instruction}
use rv.Debugger.Commands.{run_hidden, continue_cmd}
use rv.Debugger.Session.{run_cmd, cmd_exec, debugger_session}
use rv.Debugger.Endless.{line_cmd, at_prompt, debugger_cmd_parser-cmd, is_a_cmd}

decode_ebreak : decode_instruction ebreak_inst ≡ some Inst.rv32e_ebreak
unfolding decode_instruction decode_instruction_length decode_base
decode_ebreak = refl

run_ebreak :
    (little : Bool) (debugger : Debugger) (m : Machine)
    → run_instruction little debugger ebreak_inst m ≡ debugger_run debugger m
unfolding run_instruction run_base ebreak decode_instruction decode_instruction_type
    decode_instruction_length decode_base base_type base_operands
run_ebreak little debugger m = refl

run_hidden-some :
    (little : Bool) (d : Debugger) (m m' : Machine) (w : ℕ)
    → break_list_get_instruction m.proc.pc m.break_list ≡ w
    → (w == 0) ≡ false
    → run_instruction little d w m ≡ some m'
    → run_hidden little d m ≡ some m'
unfolding proc_get_pc
run_hidden-some little d m m' w stored hidden runs =
    subst (λ v. elim (v == 0) [ true ↦ some m | false ↦ run_instruction little d v m ] ≡ some m')
      (sym stored)
      (subst (λ t. elim t [ true ↦ some m | false ↦ run_instruction little d w m ] ≡ some m')
        (sym hidden) runs)

-- The state after the round: the counter is moved by 4 bytes, the length of EBREAK.
abbrev pub after_hit : List ℕ → List (List ℕ) → ProcState → Machine → Machine
after_hit line rest q m = record (at_prompt line m) {
  proc = move 4 q;
  inst = decoded_long ebreak_inst Inst.rv32e_ebreak;
  mode = SimulatorExecMode.simulator_continue;
  session = m.session + 1;
  stdin = rest;
}

-- The state at the prompt of the debugger in that round.
abbrev pub at_hit : List ℕ → List (List ℕ) → Machine → Machine
at_hit line rest m =
    at_prompt line (record m { inst = decoded_long ebreak_inst Inst.rv32e_ebreak; stdin = rest })

module _ (little : Bool) (long_max : ℕ) (malloc : Machine → Bool) where
  exec_continue :
      (d : Debugger) (m m' : Machine)
      → m.debugger_cmd.cmd ≡ DebuggerBaseCmd.continue
      → run_hidden little d m ≡ some m'
      → cmd_exec little long_max malloc d m
        ≡ some (m'.debugger_cmd.cmd, record m' { mode = SimulatorExecMode.simulator_continue })
  unfolding cmd_exec run_cmd continue_cmd simulator_set_exec_mode
  exec_continue d m m' c runs =
      let result : Option (DebuggerBaseCmd × Machine) =
        some (m'.debugger_cmd.cmd, record m' { mode = SimulatorExecMode.simulator_continue }) in
      subst
        (λ cmd.
          (run_cmd little long_max malloc d cmd m >>= λ r. some (r.debugger_cmd.cmd, r)) ≡ result)
        (sym c)
        (ap
          (λ (r : Option Machine).
            (r >>= λ a. some (simulator_set_exec_mode SimulatorExecMode.simulator_continue a))
            >>= λ a. some (a.debugger_cmd.cmd, a))
          runs)

  session_continue :
      (fuel n : ℕ) (line : List ℕ) (rest : List (List ℕ)) (m m' : Machine) (w : ℕ)
      → m.stdin ≡ line ∷ rest
      → line_cmd line ≡ DebuggerBaseCmd.continue
      → break_list_get_instruction m.proc.pc m.break_list ≡ w
      → (w == 0) ≡ false
      → run_instruction little
          (debugger_session little long_max malloc fuel)
          w
          (at_prompt line (record m { stdin = rest }))
        ≡ some m'
      → m'.debugger_cmd.cmd ≡ DebuggerBaseCmd.continue
      → debugger_session little long_max malloc (suc fuel) n m
        ≡ some (record m' { mode = SimulatorExecMode.simulator_continue })
  unfolding debugger_session
  session_continue fuel n line rest m m' w input h stored hidden runs same =
      let d = debugger_session little long_max malloc fuel in
      let next : Machine = record m { stdin = rest } in
      let parsed =
        debugger_cmd_parser-cmd little long_max malloc d line next (ap is_a_cmd h)
        ∙ exec_continue d (at_prompt line next) m' h
            (run_hidden-some little d (at_prompt line next) m' w stored hidden runs) in
      rw (input, parsed, same) refl

  -- On a valid processor in continuous mode whose memory has the 32-bit EBREAK at the program
  -- counter, where the list of breakpoints has the stored word `w`, not 0, a round of the loop in
  -- which the user answers `continue` has the effect `q` that the instruction `w` has on the
  -- processor, then moves the counter by 4 bytes; the breakpoints stay.
  pub round-continue :
      (fuel : ℕ) (line : List ℕ) (rest : List (List ℕ)) (m : Machine) (w : ℕ) (q : ProcState)
      {b : List ℕ}
      → IsValid m.proc b
      → Holds little b m.proc.pc ebreak_inst
      → m.mode ≡ SimulatorExecMode.simulator_continue
      → m.state ≡ SimulatorState.simulator_run_state
      → m.stdin ≡ line ∷ rest
      → line_cmd line ≡ DebuggerBaseCmd.continue
      → break_list_get_instruction m.proc.pc m.break_list ≡ w
      → (w == 0) ≡ false
      → run_instruction little (debugger_session little long_max malloc fuel) w (at_hit line rest m)
        ≡ some (record (at_hit line rest m) { proc = q })
      → round little (debugger_session little long_max malloc (suc fuel)) m
        ≡ some (after_hit line rest q m)
  unfolding update_pc base_type
  round-continue fuel line rest m w q v holds mode running input h stored hidden runs =
      let d = debugger_session little long_max malloc (suc fuel) in
      let n : Machine = record m { inst = decoded_long ebreak_inst Inst.rv32e_ebreak } in
      let hit : Machine = record (at_hit line rest m) { proc = q } in
      let paused = session_continue fuel n.session line rest n hit w input h stored hidden runs h in
      let done : Machine = record hit {
        mode = SimulatorExecMode.simulator_continue;
        session = m.session + 1;
      } in
      let executes : run_instruction little d ebreak_inst n ≡ some done =
        run_ebreak little d n
        ∙ ap (λ (r : Option Machine). r >>= λ a. some (record a { session = m.session + 1 }))
            paused in
      round-long little d ebreak_inst Inst.rv32e_ebreak m done v (omega arith) holds refl
        decode_ebreak mode executes
      ∙ rw running refl
