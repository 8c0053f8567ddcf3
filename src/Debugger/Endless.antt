-- ===== src/Debugger/Endless.antt =====
-- Which command a line is for sw/ELE749_projet1-develop/src/debugger.c, and sessions that do not
-- return.
use rv.Common.{
  Option-cases, All, ℕ, zero, suc, ◌≡◌, refl, sym, subst, inl, inr, Bool, true, false, none, some,
  List, [], ◌∷◌, map, Yields, Yields-bind, Yields-some, Yields-none,
}
use rv.Rv32.Machine.{DebuggerBaseCmd, DebuggerCmd, Machine, Debugger}
use rv.Debugger.Text.{is_delimiter, to_lower, strtok, take, max_cmd_arg}
use rv.Debugger.Names.{debugger_base_cmd_str}
use rv.Debugger.Session.{
  find_cmd, ends_session, run_cmd, cmd_exec, exec_words, debugger_cmd_parser, debugger_round,
  debugger_session,
}
use rv.Debugger.Safety.{exec_words_cases}
use rv.Debugger.Lines.{runs_inst, run_cmd-SameInput}

-- The command of the words of a line.
abbrev pub words_cmd : List (List ℕ) → DebuggerBaseCmd
words_cmd [] = DebuggerBaseCmd.not_a_cmd
words_cmd (arg ∷ rest) = find_cmd arg debugger_base_cmd_str

abbrev pub line_cmd : List ℕ → DebuggerBaseCmd
line_cmd line = words_cmd (strtok is_delimiter [] (map to_lower line))

-- The line does not end a session.
abbrev pub GoesOn : List ℕ → Type 0
GoesOn line = ends_session (line_cmd line) ≡ false

abbrev pub is_a_cmd : DebuggerBaseCmd → Bool
is_a_cmd DebuggerBaseCmd.not_a_cmd = false
is_a_cmd _ = true

-- The state in which the command of a line is executed.
abbrev pub at_prompt : List ℕ → Machine → Machine
at_prompt line m = record m {
  debugger_cmd = record {
    cmd = line_cmd line;
    argv = take max_cmd_arg (strtok is_delimiter [] (map to_lower line));
  };
}

module _ (little : Bool) (long_max : ℕ) (malloc : Machine → Bool) (d : Debugger) where
  exec_words-cmd :
      (cmd : DebuggerBaseCmd) (words : List (List ℕ)) (m : Machine)
      → is_a_cmd cmd ≡ true
      → exec_words little long_max malloc d cmd words m
        ≡ cmd_exec little long_max malloc d
            (record m { debugger_cmd = record { cmd = cmd; argv = take max_cmd_arg words } })
  exec_words-cmd DebuggerBaseCmd.not_a_cmd words m h = absurd (cc)
  exec_words-cmd _ words m h = refl

  pub debugger_cmd_parser-cmd :
      (line : List ℕ) (m : Machine)
      → is_a_cmd (line_cmd line) ≡ true
      → debugger_cmd_parser little long_max malloc d line m
        ≡ cmd_exec little long_max malloc d (at_prompt line m)
  unfolding debugger_cmd_parser
  debugger_cmd_parser-cmd line m h = by_words (strtok is_delimiter [] (map to_lower line)) h
    where
      by_words :
          (words : List (List ℕ))
          → is_a_cmd (words_cmd words) ≡ true
          → elim words [
            | [] ↦ none
            | arg ∷ rest ↦
                exec_words little long_max malloc d
                  (find_cmd arg debugger_base_cmd_str)
                  (arg ∷ rest)
                  m
          ]
            ≡ cmd_exec little long_max malloc d (record m {
              debugger_cmd = record { cmd = words_cmd words; argv = take max_cmd_arg words };
            })
      by_words [] h = absurd (cc)
      by_words (arg ∷ rest) h = exec_words-cmd (find_cmd arg debugger_base_cmd_str) (arg ∷ rest) m h

abbrev SameAfter : Machine → DebuggerBaseCmd × Machine → Type 0
SameAfter m r = (ends_session r.0 ≡ false) × (r.1.stdin ≡ m.stdin)

not_run : (cmd : DebuggerBaseCmd) → ends_session cmd ≡ false → runs_inst cmd ≡ false
not_run DebuggerBaseCmd.step h = absurd (cc)
not_run DebuggerBaseCmd.continue h = absurd (cc)
not_run _ h = refl

module _ (little : Bool) (long_max : ℕ) (malloc : Machine → Bool) where
  debugger_cmd_parser-SameAfter :
      (d : Debugger) (line : List ℕ) (m : Machine)
      → GoesOn line
      → Yields (SameAfter m) (debugger_cmd_parser little long_max malloc d line m)
  unfolding debugger_cmd_parser cmd_exec
  debugger_cmd_parser-SameAfter d line m goes =
      by_words (strtok is_delimiter [] (map to_lower line)) goes
    where
      by_words :
          (words : List (List ℕ))
          → ends_session (words_cmd words) ≡ false
          → Yields (SameAfter m) (elim words [
            | [] ↦ none
            | arg ∷ rest ↦
                exec_words little long_max malloc d
                  (find_cmd arg debugger_base_cmd_str)
                  (arg ∷ rest)
                  m
          ])
      by_words [] h = Yields-none (SameAfter m)
      by_words (arg ∷ rest) h =
          let cmd = find_cmd arg debugger_base_cmd_str in
          let set : Machine = record m {
            debugger_cmd = record { cmd = cmd; argv = take max_cmd_arg (arg ∷ rest) };
          } in
          elim (exec_words_cases little long_max malloc d cmd (arg ∷ rest) m) [
            | inl e ↦ subst (Yields (SameAfter m)) (sym e) (Yields-some (SameAfter m) (refl, refl))
            | inr e ↦ subst (Yields (SameAfter m)) (sym e) (
                Yields-bind (SameAfter m) (run_cmd little long_max malloc d cmd set) (λ m' ends.
                  let same =
                    run_cmd-SameInput little long_max malloc d cmd set (not_run cmd h) m' ends in
                  Yields-some (SameAfter m) (
                    subst (λ (c : DebuggerCmd). ends_session c.cmd ≡ false) (sym same.command) h,
                    same.input,
                  )))
          ]

  -- While no line of the input names `step`, `continue` or `exit`, a session does not return: no
  -- amount of fuel gives a result.
  pub debugger_session-none :
      (fuel n : ℕ) (m : Machine)
      → All GoesOn m.stdin
      → debugger_session little long_max malloc fuel n m ≡ none
  unfolding debugger_session
  debugger_session-none zero n m h = refl
  debugger_session-none (suc fuel) n m h =
      by_input (debugger_session little long_max malloc fuel)
        (λ m' h'. debugger_session-none fuel n m' h') m.stdin h
    where
      by_input :
          (d : Debugger)
          → ((m' : Machine) → All GoesOn m'.stdin → d n m' ≡ none)
          → (input : List (List ℕ)) → All GoesOn input
          → debugger_round little long_max malloc d n input m ≡ none
      by_input d ends [] h = refl
      by_input d ends (line ∷ rest) h =
          let next : Machine = record m { stdin = rest } in
          elim (Option-cases (debugger_cmd_parser little long_max malloc d line next)) [
            | inl e ↦ rw e refl
            | inr (r, e) ↦
                (let (goes, left) = debugger_cmd_parser-SameAfter d line next h.0 r e in
                  let over = ends r.1 (subst (All GoesOn) (sym left) h.1) in
                  rw e (
                    subst (λ t. elim t [ true ↦ some r.1 | false ↦ d n r.1 ] ≡ none) (sym goes)
                      over))
          ]
