-- ===== src/Rv32/Safety/Machine.antt =====
-- Instructions on the whole machine, for `runInstruction` of
-- sw/ELE749_projet1-develop/src/decoder.c: those of 32 bits.
use rv.Common.{
  ◌==◌, if◌then◌else◌, ◌>>=◌, ℕ, ◌≡◌, refl, subst, Bool, true, false, Option, none, some,
  some-injective,
}
use rv.Proc.{ProcState}
use rv.Rv32.Codes.{
  field, rv32e_op, rv32e_op_imm, rv32e_op_branch, rv32e_op_lui, rv32e_op_auipc, rv32e_op_jal,
  rv32e_op_jalr, rv32e_op_load, rv32e_op_store, rv32e_op_os,
}
use rv.Rv32.Machine.{Machine, Debugger, simulator_set_state, ecall, debugger_run, ebreak, on_proc}
use rv.Rv32.Operands.{Operands, r_set, i_set, s_set, b_set, u_set, j_set}
use rv.Rv32.Safety.Sound.{Valid, Sound}
use rv.Rv32.Base.{load_upper_imm, add_upper_imm_to_pc}
use rv.Rv32.Transfer.{jump_and_link, jump_and_link_register}
use rv.Rv32.Execute.{run_op, run_op_imm, run_branch, run_base, run_load, run_store}
use rv.Rv32.Safety.Instructions.{
  run_op-Sound, run_op_imm-Sound, run_branch-Sound, jump_and_link-Sound,
  jump_and_link_register-Sound, upper-Sound,
}
use rv.Rv32.Safety.Accesses.{run_load-Sound, run_store-Sound}

-- Where the result is defined, its processor is valid.
abbrev pub SoundMachine : Option Machine → Type 0
SoundMachine r = (m : Machine) → r ≡ some m → Valid m.proc

pub machine_bind :
    {A : Type 0} (r : Option A) {f : A → Option Machine}
    → ((a : A) → r ≡ some a → SoundMachine (f a))
    → SoundMachine (r >>= f)
machine_bind none h m e = cc
machine_bind (some a) h m e = h a refl m e

pub machine_some : {m : Machine} → Valid m.proc → SoundMachine (some m)
machine_some {m} v n e = subst (λ (k : Machine). Valid k.proc) (some-injective _ _ e) v

pub machine_if :
    (t : Bool) {r s : Option Machine}
    → SoundMachine r
    → SoundMachine s
    → SoundMachine (if t then r else s)
machine_if true a b = a
machine_if false a b = b

-- An instruction of the processor, with a record of operands that may not be set.
pub with_operands :
    {D : Type 0} (r : Option D) (f : D → ProcState → Option ProcState) (m : Machine)
    → ((d : D) → Sound (f d m.proc))
    → SoundMachine (r >>= λ d. on_proc (f d) m)
with_operands r f m s =
    machine_bind r (λ d _. machine_bind (f d m.proc) (λ p e. machine_some (s d p e)))

-- A session of the debugger that starts from a valid processor leaves a valid one.
abbrev pub KeepsValid : Debugger → Type 0
KeepsValid debugger = (n : ℕ) (m : Machine) → Valid m.proc → SoundMachine (debugger n m)

pub debugger_run-Sound :
    (debugger : Debugger) (m : Machine)
    → KeepsValid debugger
    → Valid m.proc
    → SoundMachine (debugger_run debugger m)
debugger_run-Sound debugger m keeps v =
    machine_bind (debugger m.session m) (λ m' e. machine_some (keeps m.session m v m' e))

pub run_base-Sound :
    (little : Bool) (debugger : Debugger) (w : ℕ) (ops : Operands) (m : Machine)
    → KeepsValid debugger
    → Valid m.proc
    → SoundMachine (run_base little debugger w ops m)
unfolding run_base ebreak ecall simulator_set_state
run_base-Sound little debugger w ops m keeps v =
    let f3 = field 12 3 w in
    let f7 = field 25 6 w in
    let opcode = field 0 7 w in
    machine_if (opcode == rv32e_op)
      (with_operands (r_set ops) (run_op f3 f7) m (λ d. run_op-Sound f3 f7 d v))
      (machine_if (opcode == rv32e_op_imm)
        (with_operands (i_set ops) (run_op_imm f3 f7) m (λ d. run_op_imm-Sound f3 f7 d v))
        (machine_if (opcode == rv32e_op_branch)
          (with_operands (b_set ops) (run_branch f3) m (λ d. run_branch-Sound f3 d v))
          (machine_if (opcode == rv32e_op_lui)
            (with_operands (u_set ops) load_upper_imm m (λ d. (upper-Sound d v).0))
            (machine_if (opcode == rv32e_op_auipc)
              (with_operands (u_set ops) add_upper_imm_to_pc m (λ d. (upper-Sound d v).1))
              (machine_if (opcode == rv32e_op_jal)
                (with_operands (j_set ops) jump_and_link m (λ d. jump_and_link-Sound d v))
                (machine_if (opcode == rv32e_op_jalr)
                  (with_operands (i_set ops) jump_and_link_register m
                    (λ d. jump_and_link_register-Sound d v))
                  (machine_if (opcode == rv32e_op_load)
                    (with_operands (i_set ops) (run_load little f3) m
                      (λ d. run_load-Sound little f3 d v))
                    (machine_if (opcode == rv32e_op_store)
                      (with_operands (s_set ops) (run_store little f3) m
                        (λ d. run_store-Sound little f3 d v))
                      (machine_if (opcode == rv32e_op_os)
                        (machine_if (field 20 1 w == 1) (debugger_run-Sound debugger m keeps v)
                          (machine_some v))
                        (machine_some v))))))))))
