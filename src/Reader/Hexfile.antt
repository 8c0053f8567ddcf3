-- ===== src/Reader/Hexfile.antt =====
-- Programs in hexadecimal that sw/ELE749_projet1-develop/src/progReader.c reads.
use rv.Common.{
  length-append, ap₂, ◌≤◌, ◌%◌, ◌^◌, ◌/◌, ◌==◌, ◌>>=◌, length, All, ℕ, zero, suc, ◌<◌, ◌≡◌, refl,
  ap, ◌∙◌, ◌≢◌, false, Option, some, List, [], ◌∷◌, ◌++◌, map, arith, elim-false,
}
use rv.Debugger.Text.{to_u32}
use rv.Debugger.Hex.{to_hex, hex_char, strtol-to_hex}
use rv.Reader.{
  Entry, ProgramFile, llong_max, program_init, read_program, Opened, fgets, c_string, cut_newline,
  read_instruction, entry_of, read_lines,
}
use native.Mathlib.Nat.{mod-eq_of_lt}

-- A byte inside a line.
abbrev pub Inside : ℕ → Type 0
Inside c = ((c == b'\n') ≡ false) × ((c == 0) ≡ false)

-- A line that fits the buffer, without its newline.
abbrev pub IsLine : List ℕ → Type 0
IsLine s = All Inside s × (length s < 31)

-- A file of such lines.
pub file_of : List (List ℕ) → List ℕ
file_of [] = []
file_of (s ∷ ss) = s ++ (b'\n' ∷ file_of ss)

fgets-line :
    (s rest : List ℕ) (room : ℕ)
    → All Inside s
    → length s < room
    → fgets room (s ++ (b'\n' ∷ rest)) ≡ (s ++ (b'\n' ∷ []), rest)
unfolding fgets
fgets-line s rest zero h lt = absurd (omega arith)
fgets-line [] rest (suc room) h lt = refl
fgets-line (c ∷ cs) rest (suc room) h lt =
    elim-false _ _ h.0.0
    ∙ ap (λ (r : List ℕ × List ℕ). (c ∷ r.0, r.1)) (fgets-line cs rest room h.1 (omega arith))

c_string-line : (s : List ℕ) → All Inside s → c_string (s ++ (b'\n' ∷ [])) ≡ s ++ (b'\n' ∷ [])
unfolding c_string
c_string-line [] h = refl
c_string-line (c ∷ cs) h = elim-false _ _ h.0.1 ∙ ap (λ (r : List ℕ). c ∷ r) (c_string-line cs h.1)

cut_newline-line : (s : List ℕ) → cut_newline (s ++ (b'\n' ∷ [])) ≡ some s
unfolding cut_newline
cut_newline-line [] = refl
cut_newline-line (c ∷ []) = refl
cut_newline-line (c ∷ d ∷ cs) =
    ap (λ (r : Option (List ℕ)). r >>= λ rest. some (c ∷ rest)) (cut_newline-line (d ∷ cs))

read_instruction_step :
    (bytes rest s : List ℕ)
    → bytes ≢ []
    → cut_newline (c_string (fgets 31 bytes).0) ≡ some s
    → (fgets 31 bytes).1 ≡ rest
    → read_instruction bytes ≡ some (some (s, rest))
unfolding read_instruction
read_instruction_step [] rest s h cut left = absurd (h refl)
read_instruction_step (c ∷ cs) rest s h cut left = rw (cut, left) refl

line_not_empty : (s rest : List ℕ) → s ++ (b'\n' ∷ rest) ≢ []
line_not_empty [] rest e = cc
line_not_empty (c ∷ cs) rest e = cc

read_instruction-line :
    (s rest : List ℕ) → IsLine s → read_instruction (s ++ (b'\n' ∷ rest)) ≡ some (some (s, rest))
read_instruction-line s rest (h, short) =
    let gets = fgets-line s rest 31 h short in
    read_instruction_step (s ++ (b'\n' ∷ rest)) rest s (line_not_empty s rest)
      (ap (λ (r : List ℕ × List ℕ). cut_newline (c_string r.0)) gets
        ∙ ap cut_newline (c_string-line s h)
        ∙ cut_newline-line s)
      (ap (λ (r : List ℕ × List ℕ). r.1) gets)

-- A file of lines of at most 30 bytes, none of them 0 or a newline, has one entry for each line, an
-- empty line included, if the fuel is more than the lines.
pub read_lines-file_of :
    (ss : List (List ℕ)) (fuel : ℕ)
    → All IsLine ss
    → length ss < fuel
    → read_lines fuel (file_of ss) ≡ some (map entry_of ss)
unfolding read_lines file_of read_instruction
read_lines-file_of ss zero h lt = absurd (omega arith)
read_lines-file_of [] (suc fuel) h lt = refl
read_lines-file_of (s ∷ ss) (suc fuel) h lt =
    rw (read_instruction-line s (file_of ss) h.0, read_lines-file_of ss fuel h.1 (omega arith)) refl

lines-le-bytes : (ss : List (List ℕ)) → length ss ≤ length (file_of ss)
unfolding file_of
lines-le-bytes [] = omega arith
lines-le-bytes (s ∷ ss) = omega (arith, length-append s (b'\n' ∷ file_of ss), lines-le-bytes ss)

-- The eight digits of a word.
abbrev pub hex_line : ℕ → List ℕ
hex_line w = to_hex 8 w

-- The entry of a word.
abbrev pub word_entry : ℕ → Entry
word_entry w = record { inst = w; text = hex_line w; len = 4 }

hex_char-Inside : (d : ℕ) → d < 16 → Inside (hex_char d)
hex_char-Inside d h = (ground arith, ground arith)

to_hex-Inside : (k n : ℕ) → All Inside (to_hex k n)
unfolding to_hex
to_hex-Inside zero n = tt
to_hex-Inside (suc k) n = (hex_char-Inside (n / 16 ^ k % 16) (omega arith), to_hex-Inside k n)

length-to_hex : (k n : ℕ) → length (to_hex k n) ≡ k
unfolding to_hex
length-to_hex zero n = refl
length-to_hex (suc k) n = ap suc (length-to_hex k n)

entry_of-hex_line : (w : ℕ) → w < 2 ^ 32 → entry_of (hex_line w) ≡ word_entry w
unfolding to_u32
entry_of-hex_line w h =
    let reads = strtol-to_hex llong_max 7 w (omega arith) (omega arith) in
    let long = length-to_hex 8 w in
    rw (reads, long) (ap (λ v. record { inst = v; text = hex_line w; len = 4 }) (mod-eq_of_lt h))

abbrev pub Words : List ℕ → Type 0
Words ws = All (λ w. w < 2 ^ 32) ws

all_lines : (ws : List ℕ) → All IsLine (map hex_line ws)
all_lines [] = tt
all_lines (w ∷ ws) = ((to_hex-Inside 8 w, omega (arith, length-to_hex 8 w)), all_lines ws)

entries_of-Words : (ws : List ℕ) → Words ws → map entry_of (map hex_line ws) ≡ map word_entry ws
entries_of-Words [] h = refl
entries_of-Words (w ∷ ws) h = ap₂ ◌∷◌ (entry_of-hex_line w h.0) (entries_of-Words ws h.1)

-- What the reader keeps of a file of words.
abbrev pub file_words : List ℕ → List ℕ → ProgramFile
file_words name ws = record {
  prog_name = some name;
  inst_cnt = length (map word_entry ws);
  inst_arr = some (map (λ (e : Entry). e.inst) (map word_entry ws));
  inst_str_arr = some (map (λ (e : Entry). e.text) (map word_entry ws));
  inst_len_arr = some (map (λ (e : Entry). e.len) (map word_entry ws));
}

-- From a file with the eight digits of each word on a line, `programInit` gives these words in
-- order, each with its digits and a length of 4 bytes, and returns 0.
pub program_init-file_of :
    (fopen_s : List ℕ → Opened) (name ws : List ℕ)
    → fopen_s name ≡ Opened.opened (file_of (map hex_line ws))
    → Words ws
    → program_init fopen_s name ≡ some (0, file_words name ws)
unfolding program_init read_program
program_init-file_of fopen_s name ws e h =
    let ss = map hex_line ws in
    let reads =
      read_lines-file_of ss (suc (length (file_of ss))) (all_lines ws)
        (omega (arith, lines-le-bytes ss)) in
    rw (e, reads, entries_of-Words ws h) refl
