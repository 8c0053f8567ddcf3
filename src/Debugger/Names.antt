-- ===== src/Debugger/Names.antt =====
-- The names of the commands of sw/ELE749_projet1-develop/src/debugger.c.
use rv.Common.{ℕ, List, [], ◌∷◌}
use rv.Rv32.Machine.{DebuggerBaseCmd}

abbrev pub break_base_cmd_str : List (List ℕ)
break_base_cmd_str = (b'b' ∷ b'r' ∷ b'e' ∷ b'a' ∷ b'k' ∷ []) ∷ (b'b' ∷ b'r' ∷ []) ∷ (b'b' ∷ []) ∷ []

abbrev pub jump_base_cmd_str : List (List ℕ)
jump_base_cmd_str = (b'j' ∷ b'u' ∷ b'm' ∷ b'p' ∷ []) ∷ (b'j' ∷ b'm' ∷ b'p' ∷ []) ∷ (b'j' ∷ []) ∷ []

abbrev pub delete_base_cmd_str : List (List ℕ)
delete_base_cmd_str =
    (b'd' ∷ b'e' ∷ b'l' ∷ b'e' ∷ b't' ∷ b'e' ∷ []) ∷ (b'd' ∷ b'e' ∷ b'l' ∷ []) ∷ (b'd' ∷ []) ∷ []

abbrev pub disable_base_cmd_str : List (List ℕ)
disable_base_cmd_str =
    (b'd' ∷ b'i' ∷ b's' ∷ b'a' ∷ b'b' ∷ b'l' ∷ b'e' ∷ []) ∷ (b'd' ∷ b'i' ∷ b's' ∷ []) ∷ []

abbrev pub enable_base_cmd_str : List (List ℕ)
enable_base_cmd_str =
    (b'e' ∷ b'n' ∷ b'a' ∷ b'b' ∷ b'l' ∷ b'e' ∷ [])
    ∷ (b'e' ∷ b'n' ∷ b'a' ∷ [])
    ∷ (b'e' ∷ b'n' ∷ [])
    ∷ []

abbrev pub print_base_cmd_str : List (List ℕ)
print_base_cmd_str = (b'p' ∷ b'r' ∷ b'i' ∷ b'n' ∷ b't' ∷ []) ∷ (b'p' ∷ []) ∷ []

abbrev pub dump_base_cmd_str : List (List ℕ)
dump_base_cmd_str = (b'd' ∷ b'u' ∷ b'm' ∷ b'p' ∷ []) ∷ (b'd' ∷ b'm' ∷ b'p' ∷ []) ∷ []

abbrev pub step_base_cmd_str : List (List ℕ)
step_base_cmd_str = (b's' ∷ b't' ∷ b'e' ∷ b'p' ∷ []) ∷ (b's' ∷ []) ∷ []

abbrev pub continue_base_cmd_str : List (List ℕ)
continue_base_cmd_str =
    (b'c' ∷ b'o' ∷ b'n' ∷ b't' ∷ b'i' ∷ b'n' ∷ b'u' ∷ b'e' ∷ []) ∷ (b'c' ∷ []) ∷ []

abbrev pub help_base_cmd_str : List (List ℕ)
help_base_cmd_str = (b'h' ∷ b'e' ∷ b'l' ∷ b'p' ∷ []) ∷ (b'h' ∷ []) ∷ []

abbrev pub exit_base_cmd_str : List (List ℕ)
exit_base_cmd_str =
    (b'e' ∷ b'x' ∷ b'i' ∷ b't' ∷ [])
    ∷ (b's' ∷ b't' ∷ b'o' ∷ b'p' ∷ [])
    ∷ (b'q' ∷ b'u' ∷ b'i' ∷ b't' ∷ [])
    ∷ (b'q' ∷ [])
    ∷ []

abbrev pub write_base_cmd_str : List (List ℕ)
write_base_cmd_str = (b'w' ∷ b'r' ∷ b'i' ∷ b't' ∷ b'e' ∷ []) ∷ (b'w' ∷ b'r' ∷ []) ∷ (b'w' ∷ []) ∷ []

abbrev pub cmd_names : DebuggerBaseCmd → List (List ℕ)
cmd_names DebuggerBaseCmd.break = break_base_cmd_str
cmd_names DebuggerBaseCmd.jump = jump_base_cmd_str
cmd_names DebuggerBaseCmd.delete = delete_base_cmd_str
cmd_names DebuggerBaseCmd.disable = disable_base_cmd_str
cmd_names DebuggerBaseCmd.enable = enable_base_cmd_str
cmd_names DebuggerBaseCmd.print = print_base_cmd_str
cmd_names DebuggerBaseCmd.dump = dump_base_cmd_str
cmd_names DebuggerBaseCmd.step = step_base_cmd_str
cmd_names DebuggerBaseCmd.continue = continue_base_cmd_str
cmd_names DebuggerBaseCmd.help = help_base_cmd_str
cmd_names DebuggerBaseCmd.exit = exit_base_cmd_str
cmd_names DebuggerBaseCmd.write = write_base_cmd_str
cmd_names DebuggerBaseCmd.not_a_cmd = []

-- `debuggerBaseCmdStr`: the commands in the order of the enum, with their names.
abbrev pub debugger_base_cmd_str : List DebuggerBaseCmd
debugger_base_cmd_str =
    DebuggerBaseCmd.break ∷ DebuggerBaseCmd.jump ∷ DebuggerBaseCmd.delete ∷ DebuggerBaseCmd.disable
    ∷ DebuggerBaseCmd.enable ∷ DebuggerBaseCmd.print ∷ DebuggerBaseCmd.dump ∷ DebuggerBaseCmd.step
    ∷ DebuggerBaseCmd.continue ∷ DebuggerBaseCmd.help ∷ DebuggerBaseCmd.exit ∷ DebuggerBaseCmd.write
    ∷ []
