-- ===== src/Rv32/Safety/Round.antt =====
-- One instruction, and one round of the loop, of sw/ELE749_projet1-develop/src/decoder.c and
-- simulator.c leave a valid processor.
use rv.Common.{
  if◌then◌else◌, ◌>>=◌, >>=-eq-some, ℕ, zero, suc, ◌≡◌, refl, sym, subst, ap, ◌∙◌, Bool, true,
  false, not, ◌||◌, Option, none, some, some-injective,
}
use rv.Proc.{proc_get_pc, proc_read_mem}
use rv.Rv32.Codes.{Inst, InstSet}
use rv.Rv32.Data.{move, object_of}
use rv.Rv32.Machine.{Machine, Debugger, debugger_run}
use rv.Rv32.Safety.Sound.{Valid, move-Valid}
use rv.Int.{ℤ}
use rv.Rv32.Types.{decode_instruction_length, decode_instruction_type}
use rv.Rv32.Decode.{decode_instruction}
use rv.Rv32.Operands.{base_operands, compressed_operands}
use rv.Rv32.Execute.{run_base, run_compressed, run_instruction}
use rv.Rv32.Simulator.{
  is_running, is_step, sets_pc, type_sets_pc, length_in_bytes, update_pc, simulator_decode, Outcome,
  simulator_fetch, simulator_execute, round, simulator_run,
}
use rv.Rv32.Safety.Machine.{
  SoundMachine, machine_bind, machine_some, machine_if, KeepsValid, debugger_run-Sound,
  run_base-Sound,
}
use rv.Rv32.Safety.Dispatch.{run_compressed-Sound}

-- The machine of an outcome, where there is one, has a valid processor.
abbrev pub ValidOutcome : Outcome → Type 0
ValidOutcome (Outcome.stopped m) = Valid m.proc
ValidOutcome (Outcome.still_running m) = Valid m.proc
ValidOutcome Outcome.undefined = Unit

pub fetch_keeps :
    (little : Bool) (m : Machine) (f : ℕ × Machine)
    → simulator_fetch little m ≡ some f
    → f.1.proc ≡ m.proc
unfolding simulator_fetch
fetch_keeps little m f e =
    let start = object_of little 4 m.inst.inst in
    let (r, _, e₁) =
      >>=-eq-some (proc_read_mem little (proc_get_pc m.proc) (some start) 4 m.proc) _ e in
    let (d, _, e₂) = >>=-eq-some r.1 _ e₁ in
    ap (λ (g : ℕ × Machine). g.1.proc) (sym (some-injective _ _ e₂))

pub decode_keeps : (w : ℕ) (m m' : Machine) → simulator_decode w m ≡ some m' → m'.proc ≡ m.proc
unfolding simulator_decode
decode_keeps w m m' e =
    let (inst, _, e₁) = >>=-eq-some (decode_instruction w) _ e in
    let (type, _, e₂) = >>=-eq-some (decode_instruction_type w) _ e₁ in
    ap (λ (n : Machine). n.proc) (sym (some-injective _ _ e₂))

module _ (little : Bool) (debugger : Debugger) where
  pub run_instruction-Sound :
      (w : ℕ) (m : Machine)
      → KeepsValid debugger
      → Valid m.proc
      → SoundMachine (run_instruction little debugger w m)
  unfolding run_instruction
  run_instruction-Sound w m keeps v = machine_bind (decode_instruction_type w) (λ type _.
      machine_bind (decode_instruction w)
        (λ inst _. by_length type inst (decode_instruction_length w)))
    where
      by_length :
          (type : ℤ) (inst : Inst) (l : InstSet)
          → SoundMachine (elim l [
            | InstSet.rv32e ↦ do ops ← base_operands type w; run_base little debugger w ops m
            | InstSet.rvc ↦ do
              ops ← compressed_operands type w
              run_compressed little debugger inst ops m
          ])
      by_length type inst InstSet.rv32e =
          machine_bind (base_operands type w)
            (λ ops _. run_base-Sound little debugger w ops m keeps v)
      by_length type inst InstSet.rvc =
          machine_bind (compressed_operands type w)
            (λ ops _. run_compressed-Sound little debugger inst ops m keeps v)

  update_pc-Valid : (m : Machine) → Valid m.proc → Valid (update_pc m).proc
  unfolding update_pc
  update_pc-Valid m v =
      by_test
        (type_sets_pc m.inst.inst_type || sets_pc m.inst.decoded_inst || not (is_running m.state))
    where
      by_test :
          (t : Bool)
          → Valid
              (if t
                then m
                else record m { proc = move (length_in_bytes m.inst.inst_ext) m.proc }).proc
      by_test true = v
      by_test false = move-Valid (length_in_bytes m.inst.inst_ext) v

  pub round-Sound :
      (m : Machine) → KeepsValid debugger → Valid m.proc → SoundMachine (round little debugger m)
  unfolding round simulator_execute
  round-Sound m keeps v = machine_bind (simulator_fetch little m) (λ f fetched.
      machine_bind (simulator_decode f.0 f.1) (λ n decoded.
        let w : Valid n.proc =
          subst Valid (sym (decode_keeps f.0 f.1 n decoded ∙ fetch_keeps little m f fetched)) v in
        machine_bind (if is_step n.mode then debugger_run debugger n else some n) (λ ready e.
          let w' =
            machine_if (is_step n.mode) (debugger_run-Sound debugger n keeps w) (machine_some w)
              ready e in
          machine_bind (run_instruction little debugger ready.inst.inst ready) (λ done ends.
            machine_some (
              update_pc-Valid done
                (run_instruction-Sound ready.inst.inst ready keeps w' done ends))))))

  outcome_if :
      (t : Bool) (a b : Outcome)
      → ValidOutcome a
      → ValidOutcome b
      → ValidOutcome (if t then a else b)
  outcome_if true a b v w = v
  outcome_if false a b v w = w

  go_on :
      (rest : Machine → Outcome) (r : Option Machine)
      → SoundMachine r
      → ((m : Machine) → Valid m.proc → ValidOutcome (rest m))
      → ValidOutcome (elim r [ none ↦ Outcome.undefined | some m ↦ rest m ])
  go_on rest none s h = tt
  go_on rest (some m) s h = h m (s m refl)

  -- From a valid processor, if the sessions of the debugger keep it valid, any number of rounds on
  -- any contents of the memory ends with a valid processor, unless C leaves the run undefined.
  pub simulator_run-ValidOutcome :
      (rounds : ℕ) (m : Machine)
      → KeepsValid debugger
      → Valid m.proc
      → ValidOutcome (simulator_run little debugger rounds m)
  unfolding simulator_run
  simulator_run-ValidOutcome zero m keeps v =
      outcome_if (is_running m.state) (Outcome.still_running m) (Outcome.stopped m) v v
  simulator_run-ValidOutcome (suc rounds) m keeps v =
      outcome_if (is_running m.state) _ (Outcome.stopped m)
        (go_on (simulator_run little debugger rounds) (round little debugger m)
          (round-Sound m keeps v) (λ m' w. simulator_run-ValidOutcome rounds m' keeps w))
        v
