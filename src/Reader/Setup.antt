-- ===== src/Reader/Setup.antt =====
-- `simulatorInit`, `simulatorDestroy` and `main` of sw/ELE749_projet1-develop/src/simulator.c and
-- main.c.
use rv.Common.{
  ◌==◌, if◌then◌else◌, ◌>>=◌, ℕ, zero, suc, Bool, true, false, Option, none, some, List, [], ◌∷◌,
}
use rv.Proc.{ProcState, proc_init, proc_destroy, proc_write_mem}
use rv.Rv32.Data.{object_of}
use rv.Rv32.Machine.{Machine, Debugger}
use rv.Rv32.Simulator.{load_program_in_memory, simulator_run, Outcome}
use rv.Debugger.Text.{same_text, strtok}
use rv.Debugger.Session.{debugger_cmd_parser}
use rv.Reader.{
  ProgramFile, Opened, program_init, get_inst_cnt, get_inst_len_arr, get_inst_arr, program_destroy,
}

-- "Ecole de technologie superieure", with its terminator.
abbrev pub strlen_text : List ℕ
strlen_text =
    b'E' ∷ b'c' ∷ b'o' ∷ b'l' ∷ b'e' ∷ b' ' ∷ b'd' ∷ b'e' ∷ b' ' ∷ b't' ∷ b'e' ∷ b'c' ∷ b'h' ∷ b'n'
    ∷ b'o' ∷ b'l' ∷ b'o' ∷ b'g' ∷ b'i' ∷ b'e' ∷ b' ' ∷ b's' ∷ b'u' ∷ b'p' ∷ b'e' ∷ b'r' ∷ b'i'
    ∷ b'e' ∷ b'u' ∷ b'r' ∷ b'e' ∷ 0 ∷ []

abbrev pub strlen_name : List ℕ
strlen_name =
    b's' ∷ b't' ∷ b'r' ∷ b'l' ∷ b'e' ∷ b'n' ∷ b'_' ∷ b'b' ∷ b'i' ∷ b'n' ∷ b'.' ∷ b't' ∷ b'x' ∷ b't'
    ∷ []

abbrev pub hexstr_name : List ℕ
hexstr_name =
    b'h' ∷ b'e' ∷ b'x' ∷ b's' ∷ b't' ∷ b'r' ∷ b'_' ∷ b'b' ∷ b'i' ∷ b'n' ∷ b'_' ∷ b'c' ∷ b'.' ∷ b't'
    ∷ b'x' ∷ b't' ∷ []

unfoldable pub last_token : List (List ℕ) → Option (List ℕ)
last_token [] = none
last_token (t ∷ []) = some t
last_token (t ∷ u ∷ ts) = last_token (u ∷ ts)

-- "delete all --q"
abbrev pub delete_all : List ℕ
delete_all =
    b'd' ∷ b'e' ∷ b'l' ∷ b'e' ∷ b't' ∷ b'e' ∷ b' ' ∷ b'a' ∷ b'l' ∷ b'l' ∷ b' ' ∷ b'-' ∷ b'-' ∷ b'q'
    ∷ []

-- The entries of two arrays from index 0 on, as many as the count says.
unfoldable pub entries : ℕ → List ℕ → List ℕ → Option (List (ℕ × ℕ))
entries zero insts lens = some []
entries (suc n) (w ∷ insts) (k ∷ lens) = do rest ← entries n insts lens; some ((w, k) ∷ rest)
entries (suc n) _ _ = none

-- All but the last byte; of the empty string the byte before it would be written.
unfoldable pub cut_last : List ℕ → Option (List ℕ)
cut_last [] = none
cut_last (c ∷ []) = some []
cut_last (c ∷ d ∷ cs) = do rest ← cut_last (d ∷ cs); some (c ∷ rest)

pub data Setup : Type 0 where
  exited : Setup
  ready : ProcState → ProgramFile → Setup

module _ (little : Bool) where
  abbrev pub put_word : ℕ → ℕ → ProcState → Option ProcState
  put_word addr w p = do r ← proc_write_mem little addr (some (object_of little 4 w)) 4 p; some r.1

  -- Without a token `strcmp` is given NULL.
  unfoldable pub prog_setup : List ℕ → ProcState → Option ProcState
  prog_setup filepath p = do
    name ← last_token (strtok (λ c. c == b'/') [] filepath)
    if same_text name strlen_name
        then (do r ← proc_write_mem little 0x00400000 (some strlen_text) 32 p; some r.1)
        else if same_text name hexstr_name
        then (do
          p₁ ← put_word 0x00400000 0x12345678 p
          p₂ ← put_word 0x00400008 0x00004000 p₁
          p₃ ← put_word 0x00400004 0x90ABCDEF p₂
          put_word 0x0040000C 0x00004010 p₃)
        else some p

  -- With no entry the pointers are not read.
  unfoldable pub load_entries : ProgramFile → ProcState → Option ProcState
  load_entries file p = if get_inst_cnt file == 0 then some p else do
    insts ← get_inst_arr file
    lens ← get_inst_len_arr file
    pairs ← entries (get_inst_cnt file) insts lens
    load_program_in_memory little 0 pairs p

  -- `line` is what `fgets` reads; its last byte is cut off, whatever it is. `block` is what `calloc`
  -- returns in `procInit`, whose result is not used. The file name is taken to have no 0.
  unfoldable pub simulator_init :
      (List ℕ → Opened) → Option (List ℕ) → List ℕ → ProcState → Option Setup
  simulator_init fopen_s block line p = do
    name ← cut_last line
    r ← program_init fopen_s name
    elim (r.0 == 0) [
      | false ↦ some Setup.exited
      | true ↦ do
        p₁ ← prog_setup name (proc_init block p).1
        p₂ ← load_entries r.1 p₁
        some (Setup.ready p₂ (program_destroy r.1))
    ]

  unfoldable pub simulator_destroy :
      ℕ → (Machine → Bool) → Debugger → Machine → Option (ℕ × Machine)
  simulator_destroy long_max malloc debugger m = do
    r ← debugger_cmd_parser little long_max malloc debugger delete_all m
    some (0, record r.1 { proc = proc_destroy r.1.proc })

-- How `main` ends: in `simulatorInit`, with the result of `simulatorDestroy`, or not within the
-- rounds that are run.
pub data Ending : Type 0 where
  ended_early : Ending
  returned : ℕ → Machine → Ending
  running : Machine → Ending

module _ (little : Bool) (long_max : ℕ) (malloc : Machine → Bool) (debugger : Debugger) where
  abbrev pub after_run : Outcome → Option Ending
  after_run (Outcome.stopped m) = do
    r ← simulator_destroy little long_max malloc debugger m
    some (Ending.returned r.0 r.1)
  after_run (Outcome.still_running m) = some (Ending.running m)
  after_run Outcome.undefined = none

  -- `main`, with a number of rounds; `line` is the name of the program as it is typed.
  unfoldable pub simulator_main :
      (List ℕ → Opened) → Option (List ℕ) → List ℕ → ℕ → Machine → Option Ending
  simulator_main fopen_s block line rounds m = do
    setup ← simulator_init little fopen_s block line m.proc
    elim setup [
      | Setup.exited ↦ some Ending.ended_early
      | Setup.ready p file ↦
          after_run (simulator_run little debugger rounds (record m { proc = p }))
    ]
