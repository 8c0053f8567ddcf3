-- ===== src/Reader/Start.antt =====
-- `simulatorInit` and `simulatorDestroy` of sw/ELE749_projet1-develop/src/simulator.c.
use rv.Common.{
  elim-false, ◌==◌, ◌>>=◌, length, ℕ, ◌*◌, ◌%◌, ◌^◌, ◌≤◌, ◌≡◌, refl, ap, ◌∙◌, inl, Bool, false,
  Option, none, some, List, [], ◌∷◌, map, arith,
}
use rv.Int.{ℤ, pos}
use rv.Proc.{proc_memsize, ProcState, proc_init, proc_destroy}
use rv.Proc.Invariant.{IsValid, proc_init-IsValid}
use rv.Rv32.Machine.{DebuggerBaseCmd, Machine, Debugger}
use rv.Rv32.Simulator.{load_program_in_memory}
use rv.Rv32.Program.{Loaded, load_program_in_memory-Loaded}
use rv.Debugger.Text.{to_lower, take, max_cmd_arg, is_delimiter, same_text, strtok}
use rv.Debugger.Session.{find_cmd, run_cmd, cmd_exec, debugger_cmd_parser}
use rv.Debugger.Breaks.{break_list_remove_all}
use rv.Debugger.Commands.{delete_cmd}
use rv.Reader.{ProgramFile, Opened, Entry, read_program, program_init, program_destroy}
use rv.Reader.Setup.{
  strlen_name, hexstr_name, last_token, delete_all, entries, cut_last, Setup, prog_setup,
  load_entries, simulator_init, simulator_destroy,
}
use rv.Reader.Hexfile.{file_of, hex_line, word_entry, Words, file_words, program_init-file_of}

-- A file name for which `progSetup` writes nothing.
abbrev pub Plain : List ℕ → Type 0
Plain name =
    (t : List ℕ) × (last_token (strtok (λ c. c == b'/') [] name) ≡ some t)
    × (same_text t strlen_name ≡ false)
    × (same_text t hexstr_name ≡ false)

prog_setup-Plain :
    (little : Bool) (name : List ℕ) (p : ProcState) → Plain name → prog_setup little name p ≡ some p
unfolding prog_setup
prog_setup-Plain little name p (t, last, no_strlen, no_hexstr) =
    rw (last, no_strlen, no_hexstr) refl

entries-words :
    (ws : List ℕ)
    → entries
        (length (map word_entry ws))
        (map (λ (e : Entry). e.inst) (map word_entry ws))
        (map (λ (e : Entry). e.len) (map word_entry ws))
      ≡ some (map (λ w. (w, 4)) ws)
unfolding entries
entries-words [] = refl
entries-words (w ∷ ws) =
    ap (λ (r : Option (List (ℕ × ℕ))). r >>= λ rest. some ((w, 4) ∷ rest)) (entries-words ws)

load_entries-words :
    (little : Bool) (name ws : List ℕ) (p : ProcState)
    → load_entries little (file_words name ws) p
      ≡ load_program_in_memory little 0 (map (λ w. (w, 4)) ws) p
unfolding load_entries load_program_in_memory
load_entries-words little name [] p = refl
load_entries-words little name (w ∷ ws) p =
    let some_ : (length (map word_entry (w ∷ ws)) == 0) ≡ false = ground arith in
    rw (some_, entries-words (w ∷ ws)) refl

simulator_init_step :
    (little : Bool) (fopen_s : List ℕ → Opened) (block : Option (List ℕ)) (line name : List ℕ)
    (p p₁ p₂ p₃ : ProcState) (file : ProgramFile) (r : ℤ)
    → cut_last line ≡ some name
    → program_init fopen_s name ≡ some (0, file)
    → proc_init block p ≡ (r, p₁)
    → prog_setup little name p₁ ≡ some p₂
    → load_entries little file p₂ ≡ some p₃
    → simulator_init little fopen_s block line p ≡ some (Setup.ready p₃ (program_destroy file))
unfolding simulator_init
simulator_init_step little fopen_s block line name p p₁ p₂ p₃ file r cut reads starts plain loads =
    rw (cut, reads, starts, plain, loads) refl

-- Where the file has the eight digits of each word on a line, the words fit the memory, `calloc`
-- gives a block, and the file name is not one for which `progSetup` writes data, `simulatorInit`
-- ends with a valid processor whose counter is 0 and whose memory holds the words from address 0.
pub simulator_init-Loaded :
    (little : Bool) (fopen_s : List ℕ → Opened) (line name ws b : List ℕ) (p : ProcState)
    → p.mem ≡ none
    → length b ≡ proc_memsize
    → cut_last line ≡ some name
    → Plain name
    → fopen_s name ≡ Opened.opened (file_of (map hex_line ws))
    → Words ws
    → 4 * length ws ≤ proc_memsize
    → (p' : ProcState) × (b' : List ℕ) × (simulator_init little fopen_s (some b) line p
        ≡ some (Setup.ready p' (program_destroy (file_words name ws))))
      × IsValid p' b'
      × Loaded little b' 0 ws
      × (p'.pc ≡ 0)
simulator_init-Loaded little fopen_s line name ws b p off room cut plain file words fits =
    let (p₁, b₁, starts, v, at, _) = proc_init-IsValid b p room (inl off) in
    let (b', loads, v', loaded, _) =
      load_program_in_memory-Loaded little ws 0 p₁ b₁ v (omega arith) in
    let p' : ProcState = record p₁ { mem = some b' } in
    (
      p',
      b',
      simulator_init_step little fopen_s (some b) line name p p₁ p₁ p' (file_words name ws) (pos 0)
          cut (program_init-file_of fopen_s name ws file words) starts
          (prog_setup-Plain little name p₁ plain) (load_entries-words little name ws p₁ ∙ loads),
      v',
      loaded,
      at,
    )

-- A file that does not open ends the program, if the error is not a multiple of 256.
pub simulator_init-exited :
    (little : Bool) (fopen_s : List ℕ → Opened) (block : Option (List ℕ)) (line name : List ℕ)
    (p : ProcState) (err : ℕ)
    → cut_last line ≡ some name
    → fopen_s name ≡ Opened.failed err
    → (err % 2 ^ 8 == 0) ≡ false
    → simulator_init little fopen_s block line p ≡ some Setup.exited
unfolding simulator_init program_init read_program
simulator_init-exited little fopen_s block line name p err cut fails bad =
    rw (cut, fails) (elim-false _ _ bad)

-- `simulatorDestroy` removes every breakpoint, having put its instruction back, then clears the
-- processor; it returns 0. `break_list_remove_all` says where this is defined.
pub simulator_destroy_lem :
    (little : Bool) (long_max : ℕ) (malloc : Machine → Bool) (d : Debugger) (m : Machine)
    (p : ProcState)
    → break_list_remove_all little m.break_list m.proc ≡ some p
    → (m' : Machine) × (simulator_destroy little long_max malloc d m ≡ some (0, m'))
      × (m'.break_list ≡ [])
      × (m'.proc ≡ proc_destroy p)
unfolding simulator_destroy debugger_cmd_parser cmd_exec run_cmd delete_cmd strtok find_cmd
simulator_destroy_lem little long_max malloc d m p removes =
    (after, rw (simulator_destroy, removes) refl, refl, refl)
  where
    after : Machine
    after = record m {
      proc = proc_destroy p;
      break_list = [];
      debugger_cmd = record {
        cmd = DebuggerBaseCmd.delete;
        argv = take max_cmd_arg (strtok is_delimiter [] (map to_lower delete_all));
      };
    }
