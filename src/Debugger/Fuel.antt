-- ===== src/Debugger/Fuel.antt =====
-- A fuel of as many as the input has lines is enough for a session of
-- sw/ELE749_projet1-develop/src/debugger.c.
use rv.Common.{
  >>=-cong, elim-cong, ◌==◌, ◌>>=◌, length, ℕ, zero, suc, ◌+◌, ◌-◌, ◌≤◌, ◌≡◌, refl, sym, ap, ◌∙◌,
  Bool, true, false, Option, none, some, List, [], ◌∷◌, map, arith,
}
use rv.Proc.{proc_get_pc}
use rv.Rv32.Machine.{SimulatorExecMode, DebuggerBaseCmd, Machine, Debugger, simulator_set_exec_mode}
use rv.Rv32.Execute.{run_instruction}
use rv.Rv32.Shape.{Shape, run_instruction-Shape}
use rv.Debugger.Text.{is_delimiter, to_lower, strtok}
use rv.Debugger.Names.{debugger_base_cmd_str}
use rv.Debugger.Breaks.{break_list_get_instruction}
use rv.Debugger.Commands.{run_hidden, step_cmd, continue_cmd}
use rv.Debugger.Session.{
  find_cmd, ends_session, run_cmd, cmd_exec, exec_words, debugger_cmd_parser, debugger_round,
  debugger_session,
}
use rv.Debugger.Shrinks.{Shrinks, debugger_cmd_parser-Shrunk, debugger_session-Shrinks}

-- Two debuggers that agree where at most `bound` lines are left.
abbrev Agree : ℕ → Debugger → Debugger → Type 0
Agree bound d d' = (n : ℕ) (m : Machine) → length m.stdin ≤ bound → d n m ≡ d' n m

module _ (little : Bool) (d d' : Debugger) where
  run_instruction_agree :
      (w : ℕ) (m : Machine)
      → d m.session m ≡ d' m.session m
      → run_instruction little d w m ≡ run_instruction little d' w m
  run_instruction_agree w m same = elim (run_instruction-Shape little w m) [
    | Shape.of_processor r e ↦ e d ∙ sym (e d')
    | Shape.of_session e ↦
        e d
        ∙ ap (λ (r : Option Machine). r >>= λ m'. some (record m' { session = m.session + 1 })) same
        ∙ sym (e d')
    | Shape.of_ecall e ↦ e d ∙ sym (e d')
  ]

  run_hidden_agree :
      (m : Machine)
      → d m.session m ≡ d' m.session m
      → run_hidden little d m ≡ run_hidden little d' m
  run_hidden_agree m same =
      let inst = break_list_get_instruction (proc_get_pc m.proc) m.break_list in
      ap (λ (r : Option Machine). elim (inst == 0) [ true ↦ some m | false ↦ r ])
        (run_instruction_agree inst m same)

module _ (little : Bool) (long_max : ℕ) (malloc : Machine → Bool) where
  run_cmd_agree :
      (d d' : Debugger) (cmd : DebuggerBaseCmd) (m : Machine)
      → d m.session m ≡ d' m.session m
      → run_cmd little long_max malloc d cmd m ≡ run_cmd little long_max malloc d' cmd m
  unfolding run_cmd step_cmd continue_cmd
  run_cmd_agree d d' DebuggerBaseCmd.step m same =
      ap
        (λ (r : Option Machine).
          r >>= λ m'. some (simulator_set_exec_mode SimulatorExecMode.simulator_step m'))
        (run_hidden_agree little d d' m same)
  run_cmd_agree d d' DebuggerBaseCmd.continue m same =
      ap
        (λ (r : Option Machine).
          r >>= λ m'. some (simulator_set_exec_mode SimulatorExecMode.simulator_continue m'))
        (run_hidden_agree little d d' m same)
  run_cmd_agree d d' _ m same = refl

  cmd_exec_agree :
      (d d' : Debugger) (m : Machine)
      → d m.session m ≡ d' m.session m
      → cmd_exec little long_max malloc d m ≡ cmd_exec little long_max malloc d' m
  unfolding cmd_exec
  cmd_exec_agree d d' m same =
      ap (λ (r : Option Machine). r >>= λ m'. some (m'.debugger_cmd.cmd, m'))
        (run_cmd_agree d d' m.debugger_cmd.cmd m same)

  exec_words-Agree :
      (d d' : Debugger) (cmd : DebuggerBaseCmd) (words : List (List ℕ)) (m : Machine)
      → Agree (length m.stdin) d d'
      → exec_words little long_max malloc d cmd words m
        ≡ exec_words little long_max malloc d' cmd words m
  exec_words-Agree d d' DebuggerBaseCmd.not_a_cmd words m agree = refl
  exec_words-Agree d d' _ words m agree = cmd_exec_agree d d' _ (agree m.session _ (omega arith))

  debugger_cmd_parser-Agree :
      (d d' : Debugger) (line : List ℕ) (m : Machine)
      → Agree (length m.stdin) d d'
      → debugger_cmd_parser little long_max malloc d line m
        ≡ debugger_cmd_parser little long_max malloc d' line m
  unfolding debugger_cmd_parser
  debugger_cmd_parser-Agree d d' line m agree =
      by_words (strtok is_delimiter [] (map to_lower line))
    where
      by_words :
          (words : List (List ℕ))
          → ◌≡◌ {A = Option (DebuggerBaseCmd × Machine)}
              (elim words [
                | [] ↦ none
                | arg ∷ rest ↦
                    exec_words little long_max malloc d
                      (find_cmd arg debugger_base_cmd_str)
                      (arg ∷ rest)
                      m
              ])
              (elim words [
                | [] ↦ none
                | arg ∷ rest ↦
                    exec_words little long_max malloc d'
                      (find_cmd arg debugger_base_cmd_str)
                      (arg ∷ rest)
                      m
              ])
      by_words [] = refl
      by_words (arg ∷ rest) = exec_words-Agree d d' _ (arg ∷ rest) m agree

  debugger_round-Agree :
      (d d' : Debugger) (n : ℕ) (input : List (List ℕ)) (m : Machine) (bound : ℕ)
      → Agree bound d d'
      → Shrinks d'
      → length input ≤ suc bound
      → debugger_round little long_max malloc d n input m
        ≡ debugger_round little long_max malloc d' n input m
  debugger_round-Agree d d' n [] m bound agree shrinks le = refl
  debugger_round-Agree d d' n (line ∷ rest) m bound agree shrinks le =
      let next : Machine = record m { stdin = rest } in
      ap
        (λ (r : Option (DebuggerBaseCmd × Machine)).
          r >>= λ q. elim (ends_session q.0) [ true ↦ some q.1 | false ↦ d n q.1 ])
        (debugger_cmd_parser-Agree d d' line next (λ k m' fewer. agree k m' (omega arith)))
      ∙ >>=-cong (debugger_cmd_parser little long_max malloc d' line next) (λ r e.
        elim-cong (ends_session r.0) (some r.1) (
          agree n r.1 (
            omega
              (arith, debugger_cmd_parser-Shrunk little long_max malloc d' line next shrinks r e))))

  empty-none :
      (d : Debugger) (n : ℕ) (input : List (List ℕ)) (m : Machine)
      → length input ≤ 0
      → debugger_round little long_max malloc d n input m ≡ none
  empty-none d n [] m h = refl
  empty-none d n (line ∷ rest) m h = absurd (omega arith)

  -- A session gives the same result on any two amounts of fuel that are not less than the number of
  -- lines in the input, also where it runs sessions inside its commands.
  pub debugger_session-enough_fuel :
      (a b n : ℕ) (m : Machine)
      → length m.stdin ≤ a
      → length m.stdin ≤ b
      → debugger_session little long_max malloc a n m
        ≡ debugger_session little long_max malloc b n m
  unfolding debugger_session
  debugger_session-enough_fuel zero zero n m la lb = refl
  debugger_session-enough_fuel zero (suc b) n m la lb = sym (empty-none _ n m.stdin m la)
  debugger_session-enough_fuel (suc a) zero n m la lb = empty-none _ n m.stdin m lb
  debugger_session-enough_fuel (suc a) (suc b) n m la lb =
      debugger_round-Agree (debugger_session little long_max malloc a)
        (debugger_session little long_max malloc b) n m.stdin m (length m.stdin - 1)
        (λ k m' le. debugger_session-enough_fuel a b k m' (omega arith) (omega arith))
        (debugger_session-Shrinks little long_max malloc b) (omega arith)
