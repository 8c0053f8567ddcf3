-- ===== src/Rv32/Tests.antt =====
-- The in-order simulator with small programs.
use rv.Rv32.Codes.{Inst, field}
use rv.Rv32.Immediate.{
  get_s_type_immediate, get_b_type_immediate, get_u_type_immediate, get_j_type_immediate,
}
use rv.Rv32.Faults.{stays, update_pc-stays, run_instruction-srai}
use rv.Rv32.Data.{move, read_value, write_value}
use rv.Rv32.Simulator.{
  length_in_bytes, update_pc, simulator_decode, Outcome, load_program_in_memory, simulator_run,
}
use rv.Rv32.Types.{decode_instruction_length}
use rv.Common.{
  if◌then◌else◌, ◌>>=◌, get_elem?, replicate, ℕ, ◌+◌, ◌*◌, ◌^◌, ◌<◌, ◌≡◌, refl, ◌≢◌, true, false,
  none, some, List, ◌∷◌, map, arith,
}
use rv.Proc.{ProcState, proc_write_reg, proc_read_reg, proc_get_pc, proc_set_pc, proc_update_pc}
use rv.Proc.Invariant.{IsValid}
use rv.Alu.{alu_exec}
use rv.Rv32.Decode.{decode_quadrant_0, decode_instruction}
use rv.Rv32.Scatter.{format_immediates, sext}
use rv.Rv32.Straight.{meaning, words}
use rv.Rv32.Whole.{simulator_run-load}
use rv.Rv32.Halt.{simulator_run-meaning}
use rv.Rv32.Machine.{SimulatorState, Machine, on_proc}
use rv.Rv32.Execute.{run_instruction}
use rv.Rv32.Encoding.{Encodes, decode_instruction-Encodes}
use rv.Rv32.Run.{registers_of, immediate_of}
use rv.Rv32.Effect.{
  register_effect, immediate_effect, run_instruction-register_effect,
  run_instruction-immediate_effect,
}
use rv.Rv32.Undecoded.{decode_instruction_never}
use rv.Rv32.Program.{Loaded, load_program_in_memory-Loaded}
use rv.Rv32.RoundTrip.{read_value-write_value}
use rv.Rv32.Sample.{block, on, on-IsValid, no_session, with_proc, program}

decode_instruction-Encodes_example : decode_instruction 0xFFD00293 ≡ some Inst.rv32e_addi
decode_instruction-Encodes_example =
    decode_instruction-Encodes 0xFFD00293 (Encodes.addi_word refl refl)

run_instruction-register_effect_example :
    run_instruction true no_session 0x007302B3 (with_proc on)
    ≡ on_proc (register_effect Inst.rv32e_add (registers_of 0x007302B3)) (with_proc on)
run_instruction-register_effect_example =
    run_instruction-register_effect true no_session 0x007302B3 (with_proc on)
      (Encodes.add_word refl refl refl) refl

run_instruction-immediate_effect_example :
    run_instruction true no_session 0xFFD00293 (with_proc on)
    ≡ on_proc (immediate_effect Inst.rv32e_addi (immediate_of 0xFFD00293)) (with_proc on)
run_instruction-immediate_effect_example =
    run_instruction-immediate_effect true no_session 0xFFD00293 (with_proc on)
      (Encodes.addi_word refl refl) (omega arith) refl refl

read_value-write_value_example :
    (write_value false 4 0xFFFFFFFE 0x12345678 on >>= λ q. read_value false 4 0xFFFFFFFE q)
    ≡ some 0x12345678
read_value-write_value_example =
    read_value-write_value false 4 0xFFFFFFFE 0x12345678 on-IsValid (omega arith) (omega arith)
      (omega arith)

decode_instruction_never_example :
    (decode_instruction 1 ≢ some Inst.c_nop) × (decode_instruction 1 ≢ some Inst.c_addi16sp)
decode_instruction_never_example = decode_instruction_never 1

run_instruction-srai_example : run_instruction true no_session 0x40335293 (with_proc on) ≡ none
run_instruction-srai_example =
    run_instruction-srai true no_session 0x40335293 (with_proc on) (omega arith)
      (Encodes.srai_word refl refl refl)

format_immediates_example :
    (get_s_type_immediate 0xFE20AE23
      ≡ sext 12 (field 25 7 0xFE20AE23 * 2 ^ 5 + field 7 5 0xFE20AE23))
    × (get_b_type_immediate 0xFE20AE23
        ≡ sext 13 (
            field 31 1 0xFE20AE23 * 2 ^ 12
            + field 7 1 0xFE20AE23 * 2 ^ 11
            + field 25 6 0xFE20AE23 * 2 ^ 5
            + field 8 4 0xFE20AE23 * 2))
    × (get_u_type_immediate 0xFE20AE23 ≡ field 12 20 0xFE20AE23 * 2 ^ 12)
    × (get_j_type_immediate 0xFE20AE23
        ≡ sext 21 (
            field 31 1 0xFE20AE23 * 2 ^ 20
            + field 12 8 0xFE20AE23 * 2 ^ 12
            + field 20 1 0xFE20AE23 * 2 ^ 11
            + field 21 10 0xFE20AE23 * 2))
format_immediates_example = format_immediates 0xFE20AE23 (omega arith)

abbrev negatives : ProcState
negatives = record { pc = 0; x = 0 ∷ 0xFFFFFFFE ∷ 0xFFFFFFFF ∷ replicate 13 0; mem = none }

-- C.SW x8, 0(x8).
update_pc-stays_example :
    (m' : Machine) × (simulator_decode 0xC000 (with_proc on) ≡ some m')
    × (m'.proc ≡ on)
    × (update_pc m' ≡ (
        if stays Inst.c_sw
        then m'
        else record m' { proc = move (length_in_bytes (decode_instruction_length 0xC000)) on }))
unfolding decode_instruction decode_instruction_length decode_quadrant_0
update_pc-stays_example = update_pc-stays 0xC000 Inst.c_sw (with_proc on) refl refl refl

-- The memory with the program.
memory :
    (b' : List ℕ) × (load_program_in_memory true 0 (map (λ w. (w, 4)) (words program)) on
      ≡ some (record on { mem = some b' }))
    × IsValid (record on { mem = some b' }) b'
    × Loaded true b' 0 (words program)
    × ((k : ℕ) → k < 0 → get_elem? b' k ≡ get_elem? block k)
memory = load_program_in_memory-Loaded true (words program) 0 on block on-IsValid (omega arith)

abbrev before : ProcState
before = record on { mem = some memory.0 }

abbrev after : ProcState
after = record {
  pc = 8;
  x = 0 ∷ 5 ∷ 5 ∷ 5 ∷ 5 ∷ 0xFFFFFFFD ∷ 0xFFFFFFFC ∷ replicate 9 5;
  mem = some memory.0;
}

program-meaning : meaning program before ≡ some after
unfolding proc_read_reg proc_write_reg alu_exec proc_update_pc proc_set_pc proc_get_pc
program-meaning = refl

simulator_run-meaning_example :
    (m' : Machine) × (simulator_run true no_session 3 (with_proc before) ≡ Outcome.stopped m')
    × (m'.proc ≡ after)
    × (m'.state ≡ SimulatorState.simulator_stop)
simulator_run-meaning_example =
    simulator_run-meaning true no_session program (with_proc before) after memory.0 memory.2
      memory.3 (omega arith) refl refl program-meaning

simulator_run-load_example :
    (m' : Machine) × (simulator_run true no_session 3 (with_proc before) ≡ Outcome.stopped m')
    × (m'.proc ≡ after)
    × (m'.state ≡ SimulatorState.simulator_stop)
simulator_run-load_example =
    simulator_run-load true no_session program (with_proc on) before after on-IsValid (omega arith)
      refl refl memory.1 program-meaning
