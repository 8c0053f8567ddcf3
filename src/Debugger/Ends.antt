-- ===== src/Debugger/Ends.antt =====
-- When a session of sw/ELE749_projet1-develop/src/debugger.c returns.
use rv.Common.{
  ◌<◌, ◌++◌, All, ℕ, zero, suc, ◌≡◌, refl, sym, subst, ◌≢◌, Bool, true, false, none, some, List, [],
  ◌∷◌, map, length, arith,
}
use rv.Rv32.Machine.{
  SimulatorState, DebuggerBaseCmd, DebuggerCmd, Machine, Debugger, simulator_set_state,
}
use rv.Debugger.Text.{is_delimiter, to_lower, strtok, take, max_cmd_arg}
use rv.Debugger.Names.{debugger_base_cmd_str}
use rv.Debugger.Commands.{exit_cmd}
use rv.Debugger.Session.{
  find_cmd, ends_session, run_cmd, cmd_exec, exec_words, debugger_cmd_parser, debugger_session,
}
use rv.Debugger.Endless.{line_cmd, words_cmd}

-- A command that only prints, and the line has a word.
abbrev pub is_quiet : DebuggerBaseCmd → Bool
is_quiet DebuggerBaseCmd.print = true
is_quiet DebuggerBaseCmd.dump = true
is_quiet DebuggerBaseCmd.help = true
is_quiet DebuggerBaseCmd.not_a_cmd = true
is_quiet _ = false

abbrev pub Quiet : List ℕ → Type 0
Quiet line = (strtok is_delimiter [] (map to_lower line) ≢ []) × (is_quiet (line_cmd line) ≡ true)

-- What `exit` and lines that only print leave of `m`.
pub record Untouched (m m' : Machine) : Type 0 where
  pub processor : m'.proc ≡ m.proc
  pub breaks : m'.break_list ≡ m.break_list
  pub instruction : m'.inst ≡ m.inst

module _ (little : Bool) (long_max : ℕ) (malloc : Machine → Bool) (d : Debugger) where
  quiet_words :
      (cmd : DebuggerBaseCmd) (words : List (List ℕ)) (m : Machine)
      → is_quiet cmd ≡ true
      → (c : DebuggerCmd) × (exec_words little long_max malloc d cmd words m
          ≡ some (cmd, record m { debugger_cmd = c }))
        × (ends_session cmd ≡ false)
  unfolding cmd_exec run_cmd
  quiet_words DebuggerBaseCmd.print words m h = (_, refl, refl)
  quiet_words DebuggerBaseCmd.dump words m h = (_, refl, refl)
  quiet_words DebuggerBaseCmd.help words m h = (_, refl, refl)
  quiet_words DebuggerBaseCmd.not_a_cmd words m h = (m.debugger_cmd, refl, refl)
  quiet_words _ words m h = absurd (cc)

  Quiet-line :
      (line : List ℕ) (m : Machine)
      → Quiet line
      → (c : DebuggerCmd) × (cmd : DebuggerBaseCmd) × (debugger_cmd_parser little long_max malloc d
            line m
          ≡ some (cmd, record m { debugger_cmd = c }))
        × (ends_session cmd ≡ false)
  unfolding debugger_cmd_parser
  Quiet-line line m q = by_words (strtok is_delimiter [] (map to_lower line)) q.0 q.1
    where
      by_words :
          (words : List (List ℕ))
          → words ≢ []
          → is_quiet (words_cmd words) ≡ true
          → (c : DebuggerCmd) × (cmd : DebuggerBaseCmd) × (elim words [
            | [] ↦ none
            | arg ∷ rest ↦
                exec_words little long_max malloc d
                  (find_cmd arg debugger_base_cmd_str)
                  (arg ∷ rest)
                  m
          ]
              ≡ some (cmd, record m { debugger_cmd = c }))
            × (ends_session cmd ≡ false)
      by_words [] ne h = absurd (ne refl)
      by_words (arg ∷ rest) ne h =
          let (c, e, goes) = quiet_words (find_cmd arg debugger_base_cmd_str) (arg ∷ rest) m h in
          (c, find_cmd arg debugger_base_cmd_str, e, goes)

  exit_line :
      (line : List ℕ) (m : Machine)
      → line_cmd line ≡ DebuggerBaseCmd.exit
      → (c : DebuggerCmd) × (debugger_cmd_parser little long_max malloc d line m
          ≡ some (
            DebuggerBaseCmd.exit,
            record m { debugger_cmd = c; state = SimulatorState.simulator_stop },
          ))
  unfolding debugger_cmd_parser cmd_exec run_cmd exit_cmd simulator_set_state
  exit_line line m h = by_words (strtok is_delimiter [] (map to_lower line)) h
    where
      by_words :
          (words : List (List ℕ))
          → words_cmd words ≡ DebuggerBaseCmd.exit
          → (c : DebuggerCmd) × (elim words [
            | [] ↦ none
            | arg ∷ rest ↦
                exec_words little long_max malloc d
                  (find_cmd arg debugger_base_cmd_str)
                  (arg ∷ rest)
                  m
          ]
              ≡ some (
                DebuggerBaseCmd.exit,
                record m { debugger_cmd = c; state = SimulatorState.simulator_stop },
              ))
      by_words [] e = absurd (cc)
      by_words (arg ∷ rest) e =
          (record { cmd = DebuggerBaseCmd.exit; argv = take max_cmd_arg (arg ∷ rest) }, rw e refl)

module _ (little : Bool) (long_max : ℕ) (malloc : Machine → Bool) where
  -- A session whose input has lines of `print`, `dump`, `help` and unknown words, and then a line
  -- of `exit`, returns, with a fuel of more than these lines; it has read as far as that line, the
  -- simulator stops, and processor, instruction and breakpoints are as before.
  pub debugger_session-exit :
      (fuel n : ℕ) (skipped : List (List ℕ)) (line : List ℕ) (rest : List (List ℕ)) (m : Machine)
      → m.stdin ≡ skipped ++ (line ∷ rest)
      → All Quiet skipped
      → line_cmd line ≡ DebuggerBaseCmd.exit
      → length skipped < fuel
      → (m' : Machine) × (debugger_session little long_max malloc fuel n m ≡ some m')
        × (m'.state ≡ SimulatorState.simulator_stop)
        × (m'.stdin ≡ rest)
        × Untouched m m'
  unfolding debugger_session
  debugger_session-exit zero n skipped line rest m e quiet ends lt = absurd (omega arith)
  debugger_session-exit (suc fuel) n [] line rest m e quiet ends lt =
      let d = debugger_session little long_max malloc fuel in
      let (c, exits) = exit_line little long_max malloc d line (record m { stdin = rest }) ends in
      (
        record m { stdin = rest; debugger_cmd = c; state = SimulatorState.simulator_stop },
        rw (e, exits) refl,
        refl,
        refl,
        record { processor = refl; breaks = refl; instruction = refl },
      )
  debugger_session-exit (suc fuel) n (first ∷ skipped) line rest m e quiet ends lt =
      let d = debugger_session little long_max malloc fuel in
      let left = skipped ++ (line ∷ rest) in
      let (c, cmd, runs, goes) =
        Quiet-line little long_max malloc d first (record m { stdin = left }) quiet.0 in
      let next : Machine = record m { stdin = left; debugger_cmd = c } in
      let (m', returns, stops, read, same) =
        debugger_session-exit fuel n skipped line rest next refl quiet.1 ends (omega arith) in
      (
        m',
        rw (e, runs) (goes_on cmd d n next goes returns),
        stops,
        read,
        record { processor = same.processor; breaks = same.breaks; instruction = same.instruction },
      )
    where
      goes_on :
          (cmd : DebuggerBaseCmd) (d : Debugger) (k : ℕ) (next : Machine) {m' : Machine}
          → ends_session cmd ≡ false
          → d k next ≡ some m'
          → elim (ends_session cmd) [ true ↦ some next | false ↦ d k next ] ≡ some m'
      goes_on cmd d k next {m'} f r =
          subst (λ t. elim t [ true ↦ some next | false ↦ d k next ] ≡ some m') (sym f) r
