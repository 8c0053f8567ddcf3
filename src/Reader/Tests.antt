-- ===== src/Reader/Tests.antt =====
-- Witnesses for the theorems about sw/ELE749_projet1-develop/src/progReader.c and the set-up of
-- simulator.c.
use rv.Common.{replicate, ℕ, ◌≡◌, refl, true, none, some, List, [], ◌∷◌, ◌++◌, map, arith}
use rv.Proc.{proc_memsize, ProcState}
use rv.Proc.Invariant.{IsValid}
use rv.Rv32.Program.{Loaded}
use rv.Rv32.Sample.{zeros, block}
use rv.Debugger.Text.{strtok}
use rv.Reader.{Opened, program_destroy}
use rv.Reader.Setup.{last_token, cut_last, Setup, simulator_init}
use rv.Reader.Hexfile.{file_of, hex_line, file_words}
use rv.Reader.Start.{Plain, simulator_init-Loaded}

abbrev words : List ℕ
words = 0xFFD00293 ∷ 0x00000073 ∷ []

-- Every name opens the same file.
abbrev one_file : List ℕ → Opened
one_file name = Opened.opened (file_of (map hex_line words))

abbrev off : ProcState
off = record { pc = 0; x = replicate 16 0; mem = none }

abbrev name : List ℕ
name = b'd' ∷ b'/' ∷ b'p' ∷ []

name-Plain : Plain name
unfolding last_token strtok
name-Plain = (b'p' ∷ [], refl, refl, refl)

simulator_init-Loaded_example :
    (p' : ProcState) × (b' : List ℕ) × (simulator_init true one_file
        (some block)
        (name ++ (b'\n' ∷ []))
        off
      ≡ some (Setup.ready p' (program_destroy (file_words name words))))
    × IsValid p' b'
    × Loaded true b' 0 words
    × (p'.pc ≡ 0)
unfolding cut_last
simulator_init-Loaded_example =
    simulator_init-Loaded true one_file (name ++ (b'\n' ∷ [])) name words block off refl
      (zeros proc_memsize).1 refl name-Plain refl (omega arith, (omega arith, tt)) (omega arith)
