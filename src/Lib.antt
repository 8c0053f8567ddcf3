-- ===== src/Lib.antt =====
-- The RISC-V simulators of sw: a model of the C code of the out-of-order one in sw/src and of the
-- in-order one in sw/ELE749_projet1-develop/src, and what holds of them.
--
-- The out-of-order simulator fetches a word, renames its registers, lets it wait for its operands
-- in an execution buffer, computes it in one of several units, broadcasts the result on common
-- data bus lanes, and commits results in program order. The parts and the files that model them:
--
--   Rob      sw/src/rob.c      the reorder buffer, a ring of entries in program order
--   Reg      sw/src/reg.c      values, tags of the producers and dirty flags of the registers
--   Mem      sw/src/mem.c      bytes in a block, addresses taken modulo its size
--   Alu      sw/src/unit.c     operations and latencies, with the numbers of unit.h
--   Decoder  sw/src/decoder.c  the fields of an instruction word
--   Engine   sw/src/engine.c   the execution buffer, the units, the lanes, and the phases of a cycle
--   Lsu      sw/src/lsu.c      load and store buffers: set-up and scheduling
--   Proc     sw/ELE749_projet1-develop/src/procState.c
--                              counter, registers and memory of the second, in-order simulator
--   Rv32     decoder, immediates, instructions and loop of sw/ELE749_projet1-develop/src
--   Debugger, Reader, Disassembler
--            debugger.c, progReader.c and desassembly.c of sw/ELE749_projet1-develop/src; Reader
--            has main.c and the set-up and clean-up of simulator.c too
--
-- The in-order simulator fetches the word at the program counter, decodes it, fills the operand
-- record of its format, runs one function of the instruction on the processor state, and moves
-- the counter, until ECALL or the user stops it. Its files under Rv32:
--
--   Codes       RV32E.h, RVC.h, decoder.h: opcodes, instructions, types
--   Types       decoder.c: `decodeInstructionLength`, `decodeInstructionType`
--   Decode      decoder.c: `decodeInstruction`
--   Immediate   immediate.c
--   Data        the operand records, and the access to registers and memory
--   Base        instructionsRV32E.c: shifts, arithmetic, logic, comparisons
--   Transfer    instructionsRV32E.c: loads, stores, branches, jumps
--   Compressed  instructionsRV32C.c
--   Machine     the state of simulator.c, ECALL and EBREAK
--   Operands, Execute   decoder.c: `runInstruction`, the operands and the dispatch
--   Simulator   simulator.c: fetch, decode, execute, update of the counter, the loop, the loader
--
-- Theorems about it stand in Encoding, Formats, Kinds and Undecoded (the decoder), Scatter and
-- Joined (immediates), Unit, Run and Effect (arithmetic, beside the arithmetic unit of the other
-- simulator), RoundTrip, Program, Straight, Halt and Whole (memory and runs of programs), Faults,
-- Shape, and Safety.
--
-- EBREAK and step mode start a session of the debugger, which Rv32 has as a parameter and
-- Debugger fills. Breakpoints are a list of nodes, each with the instruction that EBREAK covers,
-- and part of the state of the machine, as are the last command and the rest of the input:
--
--   Debugger/Text, Breaks    the functions of the C library on text, and the breakpoint list
--   Debugger/Names, Commands the names of the commands, and the commands
--   Debugger/Session         `cmdExec`, `debuggerCmdParser` and `debuggerRun`
--   Debugger/Sound, Safety, Lines, Shrinks, Fuel, Endless, Ends, Hit, Memory, Undo, Words,
--     Hex, Table             theorems, Lines on how a line is cut into words
--   Reader                   `programInit` and the getters; Reader/Setup has `simulatorInit`,
--                            `simulatorDestroy` and main, Reader/Hexfile and Start the theorems
--   Disassembler/Digits, Names, Base, Compressed
--                            numbers as text, names, and the sixteen formats; Numbers, Lengths,
--                            Pieces, Compact and Bounds have the theorems
--
-- A definition has the name of the C function that it models (`proc_init` for `procInit`), and a
-- record that of the struct. The phases of a cycle are in Engine/Commit, Engine/WriteBack (with
-- `execute`), Engine/Issue and Engine/Dispatch; Engine/Run puts them together as `engine_run`
-- does, last phase first, and Engine/Init has `engine_init`, `engine_destroy` and `load_program`
-- with the functions they call, and Engine/Loop the loop of sw/src/main.c. Common, Int and Word
-- hold what the parts share: lists as arrays, an Option monad, integers, machine words. A file
-- named after a part's `Invariant` says which states are valid. Rob/Spec is a queue with no array
-- and no pointers, and Reg/Renaming reads the register file as a function.
--
-- How the code is rendered:
--
--   - Static variables are records that each function takes and returns. What a function stores
--     through a pointer is part of its result, and a NULL pointer is `none`.
--   - An array is a list, `[]` if its pointer is NULL. Sizes, counters and indices of type `int`,
--     which the code keeps from being negative, are natural numbers. The size field of an array that
--     is allocated and freed with it, and the counter of a list of indices, is the list's length.
--   - A result `none` of a whole call is undefined behaviour: an access outside an array, a remainder
--     by 0, a shift by 32 or more, a division by 0 or of INT32_MIN by -1. Signed sums, differences,
--     products and left shifts are taken to wrap.
--   - 32-bit words are their bit patterns, below 2 ^ 32. Tags are `uint8_t`, so a valid reorder
--     buffer has at most 256 entries; the program asks for 64.
--   - Loops over an array are recursions over its list; the loop of `issue` and the byte loops of the
--     memory count their rounds down. The loop of main is taken for a given number of cycles. The
--     loop of `simulatorRun` is taken for a number of rounds, and its outcome says whether it stopped;
--     one round for each instruction is enough for a straight-line program. The fuel of a session
--     is the number of input lines that it and the sessions inside its commands can read: as much as
--     there are lines is enough, and `whole_session` gives it as much. `read_lines` has one round more than the file has bytes, each
--     round taking a byte at least, and `digits` has ten, as many as a 32-bit number has digits.
--   - What `malloc`, `calloc`, `fopen`, `fgets` and `strtol` return, the value of ENOMEM, the byte
--     order of the host and the contents of uninitialised variables are parameters. Nothing is
--     assumed of `strtol` in the out-of-order simulator; in the in-order one it is written out for
--     base 16, with LONG_MAX as a parameter, as the C standard describes it, and so are `strtok`,
--     `fgets`, `tolower` and `strcmp`. That a program file has lines of ten bytes in the buffer is a
--     hypothesis of the out-of-order simulator.
--   - The input is the list of the lines that `fgets` returns. At its end a session has no result,
--     as the code then repeats the last command or reads an uninitialised buffer. What is printed is
--     left out, except that a NULL pointer for %s is undefined; so is that the text of a word
--     without an instruction is undefined where `print` writes it. `malloc` of the operand records is
--     taken to succeed, and a record that was not set is undefined when it is read. `abs` of
--     INT32_MIN is undefined.
--
-- Not modelled: the functions of lsu.c after `lsu_sched_store`, which are unfinished; elf.c, which
-- main does not call; what main.c of sw/src does around its loop; reg_print, which only prints; the
-- constants of RV32I.h that nothing uses; of sw/ELE749_projet1-develop print.c and what the
-- debugger and the set-up print, which is output only; the hardware description in hw.
pub mod Common
pub mod Int
pub mod Word
pub mod Rob
pub mod Reg
pub mod Mem
pub mod Alu
pub mod Decoder
pub mod Engine
pub mod Proc
pub mod Lsu
pub mod Rv32
pub mod Debugger
pub mod Reader
pub mod Disassembler
