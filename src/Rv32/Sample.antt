-- ===== src/Rv32/Sample.antt =====
-- A processor, a machine and a program for tests of the in-order simulator,
-- sw/ELE749_projet1-develop/src.
use rv.Common.{
  All, ◌<◌, ◌^◌, zero, suc, length, replicate, length-replicate, ℕ, ◌≡◌, refl, subst, some,
  some-injective, List, [], ◌∷◌, arith,
}
use rv.Proc.{proc_memsize, ProcState}
use rv.Proc.Invariant.{IsValid}
use rv.Rv32.Codes.{Inst, InstSet, rv32e_r_type}
use rv.Rv32.Machine.{SimulatorState, SimulatorExecMode, DebuggerBaseCmd, Machine, Debugger}
use rv.Rv32.Encoding.{Encodes}
use rv.Rv32.Straight.{Line}
use rv.Rv32.Safety.Sound.{Valid}
use rv.Rv32.Safety.Machine.{KeepsValid}

pub zeros : (n : ℕ) → (b : List ℕ) × (length b ≡ n)
zeros n = (replicate n 0, length-replicate n 0)

replicate-bytes : (n : ℕ) → All (λ v. v < 2 ^ 8) (replicate n 0)
replicate-bytes zero = tt
replicate-bytes (suc n) = (omega arith, replicate-bytes n)

pub zeros-bytes : (n : ℕ) → All (λ v. v < 2 ^ 8) (zeros n).0
unfolding zeros
zeros-bytes n = replicate-bytes n

-- As many zeros as the memory has bytes; they are not computed.
abbrev pub block : List ℕ
block = (zeros proc_memsize).0

abbrev pub on : ProcState
on = record { pc = 0; x = 0 ∷ replicate 15 5; mem = some block }

pub on-IsValid : IsValid on block
on-IsValid = record {
  registers = refl;
  zero_value = refl;
  pc_in = omega arith;
  block = refl;
  room = (zeros proc_memsize).1;
}

abbrev pub no_session : Debugger
no_session n m = some m

pub no_session-KeepsValid : KeepsValid no_session
no_session-KeepsValid n m v m' e = subst (λ (k : Machine). Valid k.proc) (some-injective _ _ e) v

abbrev pub with_proc : ProcState → Machine
with_proc p = record {
  proc = p;
  inst = record {
    inst = 0;
    decoded_inst = Inst.rv32e_lui;
    inst_type = rv32e_r_type;
    inst_ext = InstSet.rv32e;
  };
  state = SimulatorState.simulator_run_state;
  mode = SimulatorExecMode.simulator_continue;
  session = 0;
  break_list = [];
  debugger_cmd = record { cmd = DebuggerBaseCmd.break; argv = [] };
  stdin = [];
}

-- ADDI x5, x0, -3 and XORI x6, x5, 1.
abbrev pub program : List Line
program =
    record {
      inst = Inst.rv32e_addi;
      word = 0xFFD00293;
      encodes = Encodes.addi_word refl refl;
      small = omega arith;
      with_immediate = refl;
      no_srai = refl;
    }
    ∷ record {
      inst = Inst.rv32e_xori;
      word = 0x0012C313;
      encodes = Encodes.xori_word refl refl;
      small = omega arith;
      with_immediate = refl;
      no_srai = refl;
    }
    ∷ []
