-- ===== src/Debugger/Shrinks.antt =====
-- Sessions of sw/ELE749_projet1-develop/src/debugger.c only take lines from the input.
use rv.Common.{
  ◌==◌, length, ℕ, zero, suc, ◌≤◌, refl, sym, subst, inl, inr, Bool, none, List, [], ◌∷◌, map,
  arith, Yields, Yields-bind, Yields-some, Yields-none, Yields-elim,
}
use rv.Proc.{proc_get_pc}
use rv.Rv32.Machine.{
  DebuggerBaseCmd, Machine, Debugger, simulator_set_state, simulator_set_exec_mode, ecall,
}
use rv.Rv32.Execute.{run_instruction}
use rv.Rv32.Shape.{Shape, run_instruction-Shape}
use rv.Debugger.Text.{is_delimiter, to_lower, strtok, take, max_cmd_arg}
use rv.Debugger.Names.{debugger_base_cmd_str}
use rv.Debugger.Breaks.{break_list_get_instruction}
use rv.Debugger.Commands.{run_hidden, step_cmd, continue_cmd}
use rv.Debugger.Session.{
  find_cmd, ends_session, run_cmd, cmd_exec, exec_words, debugger_cmd_parser, debugger_round,
  debugger_session,
}
use rv.Debugger.Safety.{exec_words_cases}
use rv.Debugger.Lines.{run_cmd-SameInput}

-- No more input is left than on `m`.
abbrev pub Shrunk : Machine → Machine → Type 0
Shrunk m m' = length m'.stdin ≤ length m.stdin

abbrev pub ShrunkCommand : Machine → DebuggerBaseCmd × Machine → Type 0
ShrunkCommand m r = Shrunk m r.1

-- A debugger that adds no input.
abbrev pub Shrinks : Debugger → Type 0
Shrinks debugger = (n : ℕ) (m : Machine) → Yields (Shrunk m) (debugger n m)

module _ (little : Bool) (d : Debugger) (shrinks : Shrinks d) where
  run_instruction-Shrunk : (w : ℕ) (m : Machine) → Yields (Shrunk m) (run_instruction little d w m)
  unfolding ecall simulator_set_state
  run_instruction-Shrunk w m = elim (run_instruction-Shape little w m) [
    | Shape.of_processor r e ↦
        subst (Yields (Shrunk m)) (sym (e d))
          (Yields-bind (Shrunk m) r (λ p _. Yields-some (Shrunk m) (omega arith)))
    | Shape.of_session e ↦ subst (Yields (Shrunk m)) (sym (e d)) (
        Yields-bind (Shrunk m) (d m.session m)
          (λ m' ends. Yields-some (Shrunk m) (shrinks m.session m m' ends)))
    | Shape.of_ecall e ↦
        subst (Yields (Shrunk m)) (sym (e d)) (Yields-some (Shrunk m) (omega arith))
  ]

  run_hidden-Shrunk : (m : Machine) → Yields (Shrunk m) (run_hidden little d m)
  run_hidden-Shrunk m =
      let inst = break_list_get_instruction (proc_get_pc m.proc) m.break_list in
      Yields-elim (Shrunk m) (inst == 0) (Yields-some (Shrunk m) (omega arith))
        (run_instruction-Shrunk inst m)

module _ (little : Bool) (long_max : ℕ) (malloc : Machine → Bool) where
  run_cmd-Shrunk :
      (d : Debugger) (cmd : DebuggerBaseCmd) (m : Machine)
      → Shrinks d
      → Yields (Shrunk m) (run_cmd little long_max malloc d cmd m)
  unfolding run_cmd step_cmd continue_cmd simulator_set_exec_mode
  run_cmd-Shrunk d DebuggerBaseCmd.step m shrinks =
      Yields-bind (Shrunk m) (run_hidden little d m)
        (λ m' e. Yields-some (Shrunk m) (run_hidden-Shrunk little d shrinks m m' e))
  run_cmd-Shrunk d DebuggerBaseCmd.continue m shrinks =
      Yields-bind (Shrunk m) (run_hidden little d m)
        (λ m' e. Yields-some (Shrunk m) (run_hidden-Shrunk little d shrinks m m' e))
  run_cmd-Shrunk d cmd m shrinks = λ m' e.
      let same = (run_cmd-SameInput little long_max malloc d cmd m refl m' e).input in
      subst (λ (l : List (List ℕ)). length l ≤ length m.stdin) (sym same) (omega arith)

  pub debugger_cmd_parser-Shrunk :
      (d : Debugger) (line : List ℕ) (m : Machine)
      → Shrinks d
      → Yields (ShrunkCommand m) (debugger_cmd_parser little long_max malloc d line m)
  unfolding debugger_cmd_parser cmd_exec
  debugger_cmd_parser-Shrunk d line m shrinks =
      by_words (strtok is_delimiter [] (map to_lower line))
    where
      by_words :
          (words : List (List ℕ))
          → Yields (ShrunkCommand m) (elim words [
            | [] ↦ none
            | arg ∷ rest ↦
                exec_words little long_max malloc d
                  (find_cmd arg debugger_base_cmd_str)
                  (arg ∷ rest)
                  m
          ])
      by_words [] = Yields-none (ShrunkCommand m)
      by_words (arg ∷ rest) =
          let cmd = find_cmd arg debugger_base_cmd_str in
          let set : Machine = record m {
            debugger_cmd = record { cmd = cmd; argv = take max_cmd_arg (arg ∷ rest) };
          } in
          elim (exec_words_cases little long_max malloc d cmd (arg ∷ rest) m) [
            | inl e ↦
                subst (Yields (ShrunkCommand m)) (sym e)
                  (Yields-some (ShrunkCommand m) (omega arith))
            | inr e ↦ subst (Yields (ShrunkCommand m)) (sym e) (
                Yields-bind (ShrunkCommand m) (run_cmd little long_max malloc d cmd set) (λ m' ends.
                  Yields-some (ShrunkCommand m) (run_cmd-Shrunk d cmd set shrinks m' ends)))
          ]

  pub debugger_session-Shrinks : (fuel : ℕ) → Shrinks (debugger_session little long_max malloc fuel)
  unfolding debugger_session
  debugger_session-Shrinks zero n m = Yields-none (Shrunk m)
  debugger_session-Shrinks (suc fuel) n m =
      by_input (debugger_session little long_max malloc fuel) (debugger_session-Shrinks fuel)
        m.stdin (omega arith)
    where
      by_input :
          (d : Debugger)
          → Shrinks d
          → (input : List (List ℕ)) → length input ≤ length m.stdin
          → Yields (Shrunk m) (debugger_round little long_max malloc d n input m)
      by_input d shrinks [] le = Yields-none (Shrunk m)
      by_input d shrinks (line ∷ rest) le =
          let next : Machine = record m { stdin = rest } in
          Yields-bind (Shrunk m) (debugger_cmd_parser little long_max malloc d line next) (λ r e.
            let fewer : Shrunk next r.1 = debugger_cmd_parser-Shrunk d line next shrinks r e in
            Yields-elim (Shrunk m) (ends_session r.0)
              (Yields-some (Shrunk m) (omega (arith, fewer)))
              (λ m' ends. omega (arith, fewer, shrinks n r.1 m' ends)))
