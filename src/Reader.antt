-- ===== src/Reader.antt =====
-- The program reader of sw/ELE749_projet1-develop/src/progReader.c, and the set-up and clean-up of
-- simulator.c. `realloc` and the allocations of strings are taken to succeed.
pub mod Setup
pub mod Hexfile
pub mod Start
mod Tests
use rv.Common.{
  ◌==◌, if◌then◌else◌, ◌>>=◌, length, ℕ, zero, suc, ◌-◌, ◌*◌, ◌/◌, ◌^◌, ap, true, false, Option,
  none, some, List, [], ◌∷◌, map,
}
use rv.Word.{u8, u32}
use rv.Debugger.Text.{strtol, to_u32}

-- `programFileT`; a pointer is `none` if it is NULL or freed.
pub record ProgramFile : Type 0 where
  pub prog_name : Option (List ℕ)
  pub inst_cnt : ℕ
  pub inst_arr : Option (List ℕ)
  pub inst_str_arr : Option (List (List ℕ))
  pub inst_len_arr : Option (List ℕ)

-- What `fopen_s` gives: its error, not 0, or the bytes of the file.
pub data Opened : Type 0 where
  failed : ℕ → Opened
  opened : List ℕ → Opened

-- `fgets` with `room` bytes beside the terminator: what it reads, and what is left.
unfoldable pub fgets : ℕ → List ℕ → List ℕ × List ℕ
fgets zero bytes = ([], bytes)
fgets (suc room) [] = ([], [])
fgets (suc room) (c ∷ cs) = elim (c == b'\n') [
  | true ↦ (c ∷ [], cs)
  | false ↦ (let r = fgets room cs in (c ∷ r.0, r.1))
]

-- The string in a buffer: the bytes before the first 0.
unfoldable pub c_string : List ℕ → List ℕ
c_string [] = []
c_string (c ∷ cs) = elim (c == 0) [ true ↦ [] | false ↦ c ∷ c_string cs ]

-- A final newline is cut off. Of the empty string the code reads the byte before the buffer.
unfoldable pub cut_newline : List ℕ → Option (List ℕ)
cut_newline [] = none
cut_newline (c ∷ []) = some (if c == b'\n' then [] else c ∷ [])
cut_newline (c ∷ d ∷ cs) = do rest ← cut_newline (d ∷ cs); some (c ∷ rest)

-- The line and the rest of the file; no line at the end of the file.
unfoldable pub read_instruction : List ℕ → Option (Option (List ℕ × List ℕ))
read_instruction [] = some none
read_instruction (c ∷ cs) = do
  s ← cut_newline (c_string (fgets 31 (c ∷ cs)).0)
  some (some (s, (fgets 31 (c ∷ cs)).1))

-- `LLONG_MAX`
abbrev pub llong_max : ℕ
llong_max = 2 ^ 63 - 1

-- An entry of the three arrays: `strtoll` of base 16, the string, and half its length.
pub record Entry : Type 0 where
  pub inst : ℕ
  pub text : List ℕ
  pub len : ℕ

abbrev pub entry_of : List ℕ → Entry
entry_of s = record { inst = to_u32 (strtol llong_max s); text = s; len = u8 (length s * 4 / 8) }

-- The loop of `readProgram`, with fuel for its rounds.
unfoldable pub read_lines : ℕ → List ℕ → Option (List Entry)
read_lines zero bytes = none
read_lines (suc fuel) bytes = do
  line ← read_instruction bytes
  elim line [
    | none ↦ some []
    | some (s, rest) ↦ do more ← read_lines fuel rest; some (entry_of s ∷ more)
  ]

-- One round for each byte and one for the end of the file are enough.
unfoldable pub read_program : Opened → ProgramFile → Option (ℕ × ProgramFile)
read_program (Opened.failed err) p = some (err, p)
read_program (Opened.opened bytes) p = do
  entries ← read_lines (suc (length bytes)) bytes
  some (
    0,
    record p {
      inst_cnt = length entries;
      inst_arr = some (map (λ (e : Entry). e.inst) entries);
      inst_str_arr = some (map (λ (e : Entry). e.text) entries);
      inst_len_arr = some (map (λ (e : Entry). e.len) entries);
    },
  )

-- The error code is returned as a `uint8_t`.
unfoldable pub program_init : (List ℕ → Opened) → List ℕ → Option (ℕ × ProgramFile)
program_init fopen_s name = do
  r ← read_program (fopen_s name) (record {
    prog_name = some name;
    inst_cnt = 0;
    inst_arr = none;
    inst_str_arr = none;
    inst_len_arr = none;
  })
  some (u8 r.0, r.1)

abbrev pub get_prog_name : ProgramFile → Option (List ℕ)
get_prog_name p = p.prog_name

abbrev pub get_inst_cnt : ProgramFile → ℕ
get_inst_cnt p = p.inst_cnt

abbrev pub get_inst_len_arr : ProgramFile → Option (List ℕ)
get_inst_len_arr p = p.inst_len_arr

abbrev pub get_inst_arr : ProgramFile → Option (List ℕ)
get_inst_arr p = p.inst_arr

abbrev pub get_inst_str_arr : ProgramFile → Option (List (List ℕ))
get_inst_str_arr p = p.inst_str_arr

-- The handle itself is not freed, and the count stays. The strings are freed in the loop.
unfoldable pub program_destroy : ProgramFile → ProgramFile
program_destroy p = record p {
  prog_name = none;
  inst_arr = none;
  inst_str_arr = none;
  inst_len_arr = none;
}
