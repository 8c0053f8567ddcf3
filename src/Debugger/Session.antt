-- ===== src/Debugger/Session.antt =====
-- The parser of the commands and the loop of sw/ELE749_projet1-develop/src/debugger.c.
use rv.Common.{
  if◌then◌else◌, ◌>>=◌, ℕ, zero, suc, Bool, true, false, ◌||◌, Option, none, some, List, [], ◌∷◌,
  map, length,
}
use rv.Rv32.Machine.{DebuggerBaseCmd, Machine, Debugger}
use rv.Debugger.Text.{is_delimiter, same_text, to_lower, strtok, take, max_cmd_arg}
use rv.Debugger.Names.{cmd_names, debugger_base_cmd_str}
use rv.Debugger.Commands.{
  exit_cmd, break_cmd, jump_cmd, delete_cmd, disable_cmd, enable_cmd, write_cmd, step_cmd,
  continue_cmd,
}

-- The inner loop of `debuggerCmdParser`: is the word one of the names?
abbrev pub is_name : List ℕ → List (List ℕ) → Bool
is_name arg [] = false
is_name arg (name ∷ names) = same_text arg name || is_name arg names

-- The outer loop.
unfoldable pub find_cmd : List ℕ → List DebuggerBaseCmd → DebuggerBaseCmd
find_cmd arg [] = DebuggerBaseCmd.not_a_cmd
find_cmd arg (cmd ∷ cmds) = if is_name arg (cmd_names cmd) then cmd else find_cmd arg cmds

-- The commands after which `debuggerRun` returns.
abbrev pub ends_session : DebuggerBaseCmd → Bool
ends_session DebuggerBaseCmd.step = true
ends_session DebuggerBaseCmd.continue = true
ends_session DebuggerBaseCmd.exit = true
ends_session _ = false

-- `long_max` is LONG_MAX, and `malloc` says on which states `malloc` succeeds.
module _ (little : Bool) (long_max : ℕ) (malloc : Machine → Bool) where
  -- `print`, `dump` and `help` only write; that `print instruction` is undefined for a word without
  -- an instruction is left out.
  unfoldable pub run_cmd : Debugger → DebuggerBaseCmd → Machine → Option Machine
  run_cmd debugger DebuggerBaseCmd.break m = break_cmd little long_max (malloc m) m
  run_cmd debugger DebuggerBaseCmd.jump m = jump_cmd little long_max m
  run_cmd debugger DebuggerBaseCmd.delete m = delete_cmd little long_max m
  run_cmd debugger DebuggerBaseCmd.disable m = disable_cmd little long_max m
  run_cmd debugger DebuggerBaseCmd.enable m = enable_cmd little long_max m
  run_cmd debugger DebuggerBaseCmd.print m = some m
  run_cmd debugger DebuggerBaseCmd.dump m = some m
  run_cmd debugger DebuggerBaseCmd.step m = step_cmd little debugger m
  run_cmd debugger DebuggerBaseCmd.continue m = continue_cmd little debugger m
  run_cmd debugger DebuggerBaseCmd.help m = some m
  run_cmd debugger DebuggerBaseCmd.exit m = some (exit_cmd m)
  run_cmd debugger DebuggerBaseCmd.write m = write_cmd little long_max m
  run_cmd debugger DebuggerBaseCmd.not_a_cmd m = some m

  -- It returns the command in `debuggerCmd`, which a session inside the command may have changed.
  unfoldable pub cmd_exec : Debugger → Machine → Option (DebuggerBaseCmd × Machine)
  cmd_exec debugger m = do
    m' ← run_cmd debugger m.debugger_cmd.cmd m
    some (m'.debugger_cmd.cmd, m')

  -- A command line with a first word.
  abbrev pub exec_words :
      Debugger → DebuggerBaseCmd → List (List ℕ) → Machine → Option (DebuggerBaseCmd × Machine)
  exec_words debugger DebuggerBaseCmd.not_a_cmd words m = some (DebuggerBaseCmd.not_a_cmd, m)
  exec_words debugger cmd words m =
      cmd_exec debugger
        (record m { debugger_cmd = record { cmd = cmd; argv = take max_cmd_arg words } })

  -- On a line with no word, `printf` is given NULL for "%s", which is undefined.
  unfoldable pub debugger_cmd_parser :
      Debugger → List ℕ → Machine → Option (DebuggerBaseCmd × Machine)
  debugger_cmd_parser debugger cmd_str m = elim (strtok is_delimiter [] (map to_lower cmd_str)) [
    | [] ↦ none
    | arg ∷ rest ↦ exec_words debugger (find_cmd arg debugger_base_cmd_str) (arg ∷ rest) m
  ]

  -- One round of the loop of `debuggerRun` on the input that is left, then the loop goes on as
  -- `debugger` does. At the end of the input the code takes the buffer as it is: with the line before,
  -- which has not ended the session and is now repeated for ever, or uninitialised. Neither has a
  -- result.
  abbrev pub debugger_round : Debugger → ℕ → List (List ℕ) → Machine → Option Machine
  debugger_round debugger n [] m = none
  debugger_round debugger n (line ∷ rest) m = do
    r ← debugger_cmd_parser debugger line (record m { stdin = rest })
    elim (ends_session r.0) [ true ↦ some r.1 | false ↦ debugger n r.1 ]

  -- `debuggerRun`, with fuel for its rounds and for sessions inside commands.
  unfoldable pub debugger_session : ℕ → Debugger
  debugger_session zero n m = none
  debugger_session (suc fuel) n m = debugger_round (debugger_session fuel) n m.stdin m

  -- A session with a round for each line that is left of the input, as many as it can have.
  unfoldable pub whole_session : Debugger
  whole_session n m = debugger_session (length m.stdin) n m
