-- ===== src/Debugger/Safety.antt =====
-- Sessions of sw/ELE749_projet1-develop/src/debugger.c keep the processor valid.
use rv.Common.{
  length, ◌==◌, ℕ, zero, suc, ◌≡◌, refl, sym, subst, ◌⊎◌, inl, inr, Bool, none, some, List, [], ◌∷◌,
  map, Yields, Yields-bind, Yields-some, Yields-none, Yields-elim,
}
use rv.Proc.{proc_get_pc}
use rv.Rv32.Machine.{
  DebuggerBaseCmd, Machine, Debugger, simulator_set_state, simulator_set_exec_mode,
}
use rv.Rv32.Safety.Sound.{Valid}
use rv.Rv32.Safety.Machine.{SoundMachine, machine_bind, machine_some, KeepsValid}
use rv.Rv32.Safety.Round.{run_instruction-Sound, ValidOutcome, simulator_run-ValidOutcome}
use rv.Rv32.Simulator.{simulator_run}
use rv.Debugger.Text.{is_delimiter, to_lower, strtok, take, max_cmd_arg}
use rv.Debugger.Names.{debugger_base_cmd_str}
use rv.Debugger.Breaks.{break_list_get_instruction}
use rv.Debugger.Commands.{exit_cmd, run_hidden, step_cmd, continue_cmd}
use rv.Debugger.Session.{
  find_cmd, ends_session, run_cmd, cmd_exec, exec_words, debugger_cmd_parser, debugger_round,
  debugger_session, whole_session,
}
use rv.Debugger.Sound.{
  OfMachine, OfCommand, break_cmd-Sound, jump_cmd-Sound, delete_cmd-Sound, disable_cmd-Sound,
  enable_cmd-Sound, write_cmd-Sound,
}

module _ (little : Bool) (debugger : Debugger) (keeps : KeepsValid debugger) where
  run_hidden-Sound : (m : Machine) → Valid m.proc → SoundMachine (run_hidden little debugger m)
  run_hidden-Sound m v =
      let inst = break_list_get_instruction (proc_get_pc m.proc) m.break_list in
      Yields-elim OfMachine (inst == 0) (machine_some v)
        (run_instruction-Sound little debugger inst m keeps v)

  step_cmd-Sound : (m : Machine) → Valid m.proc → SoundMachine (step_cmd little debugger m)
  unfolding step_cmd simulator_set_exec_mode
  step_cmd-Sound m v =
      machine_bind (run_hidden little debugger m) (λ m' e. machine_some (run_hidden-Sound m v m' e))

  continue_cmd-Sound : (m : Machine) → Valid m.proc → SoundMachine (continue_cmd little debugger m)
  unfolding continue_cmd simulator_set_exec_mode
  continue_cmd-Sound m v =
      machine_bind (run_hidden little debugger m) (λ m' e. machine_some (run_hidden-Sound m v m' e))

module _ (little : Bool) (long_max : ℕ) (malloc : Machine → Bool) where
  run_cmd-Sound :
      (debugger : Debugger) (cmd : DebuggerBaseCmd) (m : Machine)
      → KeepsValid debugger
      → Valid m.proc
      → SoundMachine (run_cmd little long_max malloc debugger cmd m)
  unfolding run_cmd exit_cmd simulator_set_state
  run_cmd-Sound debugger DebuggerBaseCmd.break m keeps v =
      break_cmd-Sound little long_max (malloc m) m v
  run_cmd-Sound debugger DebuggerBaseCmd.jump m keeps v = jump_cmd-Sound little long_max m v
  run_cmd-Sound debugger DebuggerBaseCmd.delete m keeps v = delete_cmd-Sound little long_max m v
  run_cmd-Sound debugger DebuggerBaseCmd.disable m keeps v = disable_cmd-Sound little long_max m v
  run_cmd-Sound debugger DebuggerBaseCmd.enable m keeps v = enable_cmd-Sound little long_max m v
  run_cmd-Sound debugger DebuggerBaseCmd.print m keeps v = machine_some v
  run_cmd-Sound debugger DebuggerBaseCmd.dump m keeps v = machine_some v
  run_cmd-Sound debugger DebuggerBaseCmd.step m keeps v = step_cmd-Sound little debugger keeps m v
  run_cmd-Sound debugger DebuggerBaseCmd.continue m keeps v =
      continue_cmd-Sound little debugger keeps m v
  run_cmd-Sound debugger DebuggerBaseCmd.help m keeps v = machine_some v
  run_cmd-Sound debugger DebuggerBaseCmd.exit m keeps v = machine_some v
  run_cmd-Sound debugger DebuggerBaseCmd.write m keeps v = write_cmd-Sound little long_max m v
  run_cmd-Sound debugger DebuggerBaseCmd.not_a_cmd m keeps v = machine_some v

  cmd_exec-Valid :
      (debugger : Debugger) (m : Machine)
      → KeepsValid debugger
      → Valid m.proc
      → Yields OfCommand (cmd_exec little long_max malloc debugger m)
  unfolding cmd_exec
  cmd_exec-Valid debugger m keeps v =
      Yields-bind OfCommand (run_cmd little long_max malloc debugger m.debugger_cmd.cmd m)
        (λ m' e. Yields-some OfCommand (run_cmd-Sound debugger m.debugger_cmd.cmd m keeps v m' e))

  -- A test on a command that sets `not_a_cmd` apart.
  pub exec_words_cases :
      (debugger : Debugger) (cmd : DebuggerBaseCmd) (words : List (List ℕ)) (m : Machine)
      → (exec_words little long_max malloc debugger cmd words m
          ≡ some (DebuggerBaseCmd.not_a_cmd, m))
        ⊎ (exec_words little long_max malloc debugger cmd words m
            ≡ cmd_exec little long_max malloc debugger
                (record m { debugger_cmd = record { cmd = cmd; argv = take max_cmd_arg words } }))
  exec_words_cases debugger DebuggerBaseCmd.not_a_cmd words m = inl refl
  exec_words_cases debugger _ words m = inr refl

  debugger_cmd_parser-Valid :
      (debugger : Debugger) (line : List ℕ) (m : Machine)
      → KeepsValid debugger
      → Valid m.proc
      → Yields OfCommand (debugger_cmd_parser little long_max malloc debugger line m)
  unfolding debugger_cmd_parser
  debugger_cmd_parser-Valid debugger line m keeps v =
      by_words (strtok is_delimiter [] (map to_lower line))
    where
      by_words :
          (words : List (List ℕ))
          → Yields OfCommand (elim words [
            | [] ↦ none
            | arg ∷ rest ↦
                exec_words little long_max malloc debugger
                  (find_cmd arg debugger_base_cmd_str)
                  (arg ∷ rest)
                  m
          ])
      by_words [] = Yields-none OfCommand
      by_words (arg ∷ rest) =
          let cmd = find_cmd arg debugger_base_cmd_str in
          elim (exec_words_cases debugger cmd (arg ∷ rest) m) [
            | inl e ↦ subst (Yields OfCommand) (sym e) (Yields-some OfCommand v)
            | inr e ↦ subst (Yields OfCommand) (sym e) (cmd_exec-Valid debugger _ keeps v)
          ]

  -- A session of the debugger that starts from a valid processor leaves a valid one, whatever the
  -- lines of the standard input are.
  pub debugger_session-KeepsValid :
      (fuel : ℕ) → KeepsValid (debugger_session little long_max malloc fuel)
  unfolding debugger_session
  debugger_session-KeepsValid zero n m v = Yields-none OfMachine
  debugger_session-KeepsValid (suc fuel) n m v =
      by_input (debugger_session little long_max malloc fuel) (debugger_session-KeepsValid fuel)
        m.stdin
    where
      by_input :
          (debugger : Debugger)
          → KeepsValid debugger
          → (input : List (List ℕ))
          → SoundMachine (debugger_round little long_max malloc debugger n input m)
      by_input debugger keeps [] = Yields-none OfMachine
      by_input debugger keeps (line ∷ rest) =
          machine_bind
            (debugger_cmd_parser little long_max malloc debugger line (record m { stdin = rest }))
            (λ r e.
              let kept =
                debugger_cmd_parser-Valid debugger line (record m { stdin = rest }) keeps v r e in
              Yields-elim OfMachine (ends_session r.0) (machine_some kept) (keeps n r.1 kept))

  whole_session-KeepsValid : KeepsValid (whole_session little long_max malloc)
  unfolding whole_session
  whole_session-KeepsValid n m v = debugger_session-KeepsValid (length m.stdin) n m v

  -- From a valid processor, with the user at the debugger, any number of rounds on any contents of
  -- the memory and any lines of the input ends with a valid processor, unless C leaves the run
  -- undefined or a session comes to the end of the input; each session has as many rounds as lines
  -- are left.
  pub simulator_run-whole_session :
      (rounds : ℕ) (m : Machine)
      → Valid m.proc
      → ValidOutcome (simulator_run little (whole_session little long_max malloc) rounds m)
  simulator_run-whole_session rounds m v =
      simulator_run-ValidOutcome little (whole_session little long_max malloc) rounds m
        whole_session-KeepsValid v
