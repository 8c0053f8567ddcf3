-- ===== src/Rv32/Whole.antt =====
-- A program loaded and run, for `loadProgramInMemory` and `simulatorRun` of
-- sw/ELE749_projet1-develop/src/simulator.c.
use rv.Common.{
  length, ℕ, suc, ◌+◌, ◌*◌, ◌≤◌, ◌≡◌, refl, sym, subst, ap, ◌∙◌, Bool, some, some-injective, List,
  [], ◌∷◌, map, arith,
}
use rv.Proc.{proc_memsize, ProcState}
use rv.Proc.Invariant.{IsValid}
use rv.Rv32.Machine.{SimulatorState, SimulatorExecMode, Machine, Debugger}
use rv.Rv32.Simulator.{Outcome, load_program_in_memory, simulator_run}
use rv.Rv32.Program.{Loaded, load_program_in_memory-Loaded}
use rv.Rv32.Straight.{Line, meaning, words}
use rv.Rv32.Halt.{simulator_run-meaning}

length-words : (ls : List Line) → length (words ls) ≡ suc (length ls)
length-words [] = refl
length-words (l ∷ ls) = ap suc (length-words ls)

-- A straight-line program of instructions with an immediate, not SRAI, and ECALL behind them, that
-- `loadProgramInMemory` puts at the program counter of a valid processor and that fits the memory:
-- if its meaning is defined, then in continuous mode the loop ends after one round for each
-- instruction, stopped, with the processor that the meaning gives.
pub simulator_run-load :
    (little : Bool) (debugger : Debugger) (ls : List Line) (m : Machine) (q p : ProcState)
    {b : List ℕ}
    → IsValid m.proc b
    → m.proc.pc + 4 * length ls + 4 ≤ proc_memsize
    → m.mode ≡ SimulatorExecMode.simulator_continue
    → m.state ≡ SimulatorState.simulator_run_state
    → load_program_in_memory little m.proc.pc (map (λ w. (w, 4)) (words ls)) m.proc ≡ some q
    → meaning ls q ≡ some p
    → (m' : Machine) × (simulator_run little debugger (suc (length ls)) (record m { proc = q })
        ≡ Outcome.stopped m')
      × (m'.proc ≡ p)
      × (m'.state ≡ SimulatorState.simulator_stop)
simulator_run-load little debugger ls m q p {b} v room mode running loads means =
    let (b', loads', v', loaded, _) =
      load_program_in_memory-Loaded little (words ls) m.proc.pc m.proc b v
        (omega (arith, length-words ls)) in
    let same : record m.proc { mem = some b' } ≡ q = some-injective _ _ (sym loads' ∙ loads) in
    let counter : m.proc.pc ≡ q.pc = ap (λ (p : ProcState). p.pc) same in
    simulator_run-meaning little debugger ls (record m { proc = q }) p b'
      (subst (λ q. IsValid q b') same v')
      (subst (λ k. Loaded little b' k (words ls)) counter loaded) (omega (arith, counter)) mode
      running means
