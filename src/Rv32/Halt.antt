-- ===== src/Rv32/Halt.antt =====
-- Straight-line programs end, for `simulatorRun` of
-- sw/ELE749_projet1-develop/src/simulator.c.
use rv.Common.{
  >>=-eq-some, length, ℕ, suc, ◌+◌, ◌*◌, ◌^◌, ◌<◌, ◌≡◌, refl, sym, subst, ap, ◌∙◌, Bool, true,
  false, some, some-injective, List, [], ◌∷◌, arith,
}
use rv.Proc.{proc_memsize, ProcState, proc_get_pc, proc_set_pc, proc_update_pc}
use rv.Proc.Invariant.{IsValid}
use rv.Rv32.Codes.{Inst, InstSet, field}
use rv.Rv32.Types.{decode_instruction_length, base_type, decode_instruction_type}
use rv.Rv32.Decode.{decode_base, decode_instruction}
use rv.Rv32.Data.{move}
use rv.Rv32.Machine.{
  Instruction, SimulatorState, SimulatorExecMode, Machine, Debugger, simulator_set_state, ecall,
}
use rv.Rv32.Operands.{base_operands}
use rv.Rv32.Execute.{run_base, run_instruction}
use rv.Rv32.Simulator.{
  is_running, is_step, update_pc, simulator_decode, Outcome, simulator_fetch, simulator_execute,
  round, simulator_run,
}
use rv.Rv32.Encoding.{Encodes, decode_instruction-Encodes}
use rv.Rv32.Run.{immediate_of, long_word}
use rv.Rv32.Effect.{immediate_effect, run_instruction-immediate_effect}
use rv.Rv32.Program.{Holds, Loaded, simulator_fetch-Holds}
use rv.Rv32.Straight.{immediate-sets_pc, immediate_effect-Kept, Line, meaning, words}

-- The record that `simulatorDecode` makes of a 32-bit instruction.
abbrev pub decoded_long : ℕ → Inst → Instruction
decoded_long w inst = record {
  inst = w;
  decoded_inst = inst;
  inst_type = base_type (field 0 7 w);
  inst_ext = InstSet.rv32e;
}

simulator_decode-long :
    (w : ℕ) (inst : Inst) (m : Machine)
    → field 0 2 w ≡ 3
    → decode_instruction w ≡ some inst
    → simulator_decode w m ≡ some (record m { inst = decoded_long w inst })
unfolding simulator_decode
simulator_decode-long w inst m h d = let (length, type) = long_word w h in rw (d, type, length) refl

move-next :
    (q : ProcState) {b : List ℕ}
    → IsValid q b
    → q.pc + 4 < proc_memsize
    → IsValid (move 4 q) b × ((move 4 q).pc ≡ q.pc + 4)
unfolding proc_update_pc proc_set_pc proc_get_pc
move-next q v h = (
  record {
    registers = v.registers;
    zero_value = v.zero_value;
    pc_in = omega arith;
    block = v.block;
    room = v.room;
  },
  omega arith,
)

module _ (little : Bool) (debugger : Debugger) where
  round_steps :
      (m n m' : Machine) (f : ℕ × Machine)
      → simulator_fetch little m ≡ some f
      → simulator_decode f.0 f.1 ≡ some n
      → is_step n.mode ≡ false
      → simulator_execute little debugger n ≡ some m'
      → round little debugger m ≡ some (update_pc m')
  unfolding round
  round_steps m n m' f fetches decodes runs_on executes =
      rw (fetches, decodes, runs_on, executes) refl

  -- A round on a 32-bit word, without the debugger.
  pub round-long :
      (w : ℕ) (inst : Inst) (m m' : Machine) {b : List ℕ}
      → IsValid m.proc b
      → w < 2 ^ 32
      → Holds little b m.proc.pc w
      → field 0 2 w ≡ 3
      → decode_instruction w ≡ some inst
      → m.mode ≡ SimulatorExecMode.simulator_continue
      → run_instruction little debugger w (record m { inst = decoded_long w inst }) ≡ some m'
      → round little debugger m ≡ some (update_pc m')
  unfolding simulator_execute
  round-long w inst m m' v h holds long d mode runs =
      let fetched : Machine = record m { inst = record m.inst { inst = w } } in
      round_steps m (record m { inst = decoded_long w inst }) m' (w, fetched)
        (simulator_fetch-Holds little w m v h holds) (simulator_decode-long w inst fetched long d)
        (ap is_step mode) runs

  round-line :
      (l : Line) (m : Machine) (q : ProcState) {b : List ℕ}
      → IsValid m.proc b
      → Holds little b m.proc.pc l.word
      → m.mode ≡ SimulatorExecMode.simulator_continue
      → m.state ≡ SimulatorState.simulator_run_state
      → immediate_effect l.inst (immediate_of l.word) m.proc ≡ some q
      → round little debugger m
        ≡ some (record m { inst = decoded_long l.word l.inst; proc = move 4 q })
  unfolding update_pc base_type
  round-line l m q v holds mode running gives =
      let n : Machine = record m { inst = decoded_long l.word l.inst } in
      let runs : run_instruction little debugger l.word n ≡ some (record n { proc = q }) =
        run_instruction-immediate_effect little debugger l.word n l.encodes l.small l.with_immediate
          l.no_srai
        ∙ rw gives refl in
      let no_jump = immediate-sets_pc l.encodes l.with_immediate in
      round-long l.word l.inst m (record n { proc = q }) v l.small holds
        (omega (arith, l.with_immediate)) (decode_instruction-Encodes l.word l.encodes) mode runs
      ∙ rw (l.with_immediate, no_jump, running) refl

  run_ecall :
      (m : Machine)
      → run_instruction little debugger 0x73 m
        ≡ some (record m { state = SimulatorState.simulator_stop })
  unfolding run_instruction run_base ecall simulator_set_state decode_instruction
      decode_instruction_type decode_instruction_length decode_base base_type base_operands
  run_ecall m = refl

  round-ecall :
      (m : Machine) {b : List ℕ}
      → IsValid m.proc b
      → Holds little b m.proc.pc 0x73
      → m.mode ≡ SimulatorExecMode.simulator_continue
      → round little debugger m
        ≡ some (record m {
          inst = decoded_long 0x73 Inst.rv32e_ecall;
          state = SimulatorState.simulator_stop;
        })
  unfolding update_pc base_type
  round-ecall m v holds mode =
      let n : Machine = record m { inst = decoded_long 0x73 Inst.rv32e_ecall } in
      round-long 0x73 Inst.rv32e_ecall m (record n { state = SimulatorState.simulator_stop }) v
        (omega arith) holds refl (decode_instruction-Encodes 0x73 (Encodes.ecall_word refl refl))
        mode (run_ecall n)

  run_step :
      (k : ℕ) (m n : Machine)
      → is_running m.state ≡ true
      → round little debugger m ≡ some n
      → simulator_run little debugger (suc k) m ≡ simulator_run little debugger k n
  unfolding simulator_run
  run_step k m n e r = rw (e, r) refl

  -- On a valid processor whose memory holds, at the program counter, a straight-line program of
  -- instructions with an immediate, not SRAI, with ECALL behind it, the loop in continuous mode
  -- stops after exactly one round for each instruction, with the processor that the meaning of the
  -- program gives, if that is defined.
  pub simulator_run-meaning :
      (ls : List Line) (m : Machine) (p : ProcState) (b : List ℕ)
      → IsValid m.proc b
      → Loaded little b m.proc.pc (words ls)
      → m.proc.pc + 4 * length ls < proc_memsize
      → m.mode ≡ SimulatorExecMode.simulator_continue
      → m.state ≡ SimulatorState.simulator_run_state
      → meaning ls m.proc ≡ some p
      → (m' : Machine) × (simulator_run little debugger (suc (length ls)) m ≡ Outcome.stopped m')
        × (m'.proc ≡ p)
        × (m'.state ≡ SimulatorState.simulator_stop)
  unfolding simulator_run
  simulator_run-meaning [] m p b v (holds, _) room mode running means = (
    record m { inst = decoded_long 0x73 Inst.rv32e_ecall; state = SimulatorState.simulator_stop },
    run_step 0 m _ (ap is_running running) (round-ecall m v holds mode),
    some-injective _ _ means,
    refl,
  )
  simulator_run-meaning (l ∷ ls) m p b v (holds, loaded) room mode running means =
      let (q, gives, rest) =
        >>=-eq-some (immediate_effect l.inst (immediate_of l.word) m.proc) _ means in
      let (kept, stays) = immediate_effect-Kept (immediate_of l.word) l.encodes v q gives in
      let n : Machine = record m { inst = decoded_long l.word l.inst; proc = move 4 q } in
      let (v', next) = move-next q kept (omega (arith, stays)) in
      let later =
        subst (λ k. Loaded little b k (words ls)) (ap (λ k. k + 4) (sym stays) ∙ sym next) loaded in
      let (m', ends, is, stops) =
        simulator_run-meaning ls n p b v' later (omega (arith, next, stays)) mode running rest in
      (
        m',
        run_step (suc (length ls)) m n (ap is_running running)
              (round-line l m q v holds mode running gives)
            ∙ ends,
        is,
        stops,
      )
