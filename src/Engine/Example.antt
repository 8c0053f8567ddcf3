-- ===== src/Engine/Example.antt =====
-- A state of the engine, with a reorder buffer of four entries, and the state that its first cycle
-- reaches before `issue`.
use rv.Engine.Safety.Init.{tags_zero}
use rv.Common.{
  All-set, ℕ, ◌≡◌, arith, refl, set, replicate, All, inl, true, false, some, List, [], ◌∷◌,
}
use rv.Alu.{alu_exec}
use rv.Rob.{Rob, rob_commit}
use rv.Rob.Invariant.{IsValid as RobIsValid}
use rv.Reg.{Reg, reg_write_data}
use rv.Reg.Invariant.{IsValid as RegIsValid}
use rv.Mem.{mem_read, read_loop}
use rv.Mem.Endian.{word_bytes, word_of}
use rv.Engine.State.{Engine, CdbData, ExuData, ExbData, first_match}
use rv.Engine.Commit.{forward_commit, retire, commit}
use rv.Engine.WriteBack.{store_lanes, done_from, put_results, write_back, execute}
use rv.Engine.Dispatch.{Locals}
use rv.Engine.Run.{fetch, before_issue}
use rv.Engine.Invariant.{IsValid, TagOk}
use rv.Engine.Safety.Issue.{Defined}
use rv.Engine.Safety.Cycle.{HasMemory}

-- `add x5, x6, x7` at address 0.
abbrev pub program : List ℕ
program = 0xB3 ∷ 0x02 ∷ 0x73 ∷ 0x00 ∷ 0 ∷ 0 ∷ 0 ∷ 0 ∷ []

abbrev pub zeros : List ℕ
zeros = replicate 32 0

-- Entry 0 has its result, entry 1 is being computed.
abbrev pub buffer : Rob
buffer = record {
  commit_ptr = 0;
  issue_ptr = 2;
  size = 4;
  cnt = 2;
  entries =
      record { dest = 5; value = 42; done = true }
      ∷ record { dest = 6; value = 0; done = false }
      ∷ record { dest = 0; value = 0; done = false }
      ∷ record { dest = 0; value = 0; done = false }
      ∷ [];
}

abbrev pub file : Reg
file = record {
  size = 32;
  x = zeros;
  s = set zeros 6 1;
  d = set (set (replicate 32 false) 5 true) 6 true;
}

-- An entry that waits for the results 0 and 1.
abbrev pub waiter : ExbData
waiter = record {
  f10 = 0;
  vj = 0;
  vk = 0;
  qj = 0;
  qk = 1;
  qr = 1;
  rj = false;
  rk = false;
  dirty = false;
  busy = true;
}

abbrev pub free_entry : ExbData
free_entry = record {
  f10 = 0;
  vj = 0;
  vk = 0;
  qj = 0;
  qk = 0;
  qr = 0;
  rj = false;
  rk = false;
  dirty = false;
  busy = false;
}

abbrev pub lane : CdbData
lane = record { qr = 0; result = 0; valid = false }

abbrev pub unit : ExuData
unit = record { result = 7; qr = 1; cycle_left = 0; busy = true }

-- The other unit has nothing to do.
abbrev pub idle_unit : ExuData
idle_unit = record { result = 0; qr = 0; cycle_left = 0; busy = false }

abbrev pub start : Engine
start = record {
  pc = 0;
  instruction = 0;
  cdb = record { nb_active_lanes = 0; lane = lane ∷ [] };
  exu = record { units = unit ∷ idle_unit ∷ []; ready_list = []; done_list = [] };
  exb = record { buf = waiter ∷ free_entry ∷ []; ready_list = [] };
  rob = buffer;
  reg = file;
  mem = record { mem = some program; mem_size = 8 };
}

abbrev pub junk : Locals
junk = record { qr = 91; qj = 92; qk = 93; vj = 94; vk = 95 }

buffer-IsValid : RobIsValid buffer
buffer-IsValid = record {
  room = refl;
  small = omega arith;
  commit_in = omega arith;
  issue_in = omega arith;
  cnt_le = omega arith;
  window = inl refl;
}

file-IsValid : RegIsValid file
file-IsValid = record {
  x_room = refl;
  s_room = refl;
  d_room = refl;
  zero_value = refl;
  zero_clean = refl;
}

pub start-IsValid : IsValid 4 start
start-IsValid = record {
  rob = buffer-IsValid;
  rob_size = refl;
  reg = file-IsValid;
  registers = refl;
  tags = All-set (TagOk 4) zeros 6 1 (tags_zero 32 (omega arith)) (omega arith);
  lanes = ((λ h. ground arith), tt);
  units = ((λ h. omega arith), ((λ h. omega arith), tt));
  entries = ((λ h. omega arith), ((λ h. omega arith), tt));
}

pub start-HasMemory : HasMemory start.mem program
start-HasMemory = record { block = refl; room = refl; some_size = omega arith }

-- The state before `issue` in the first cycle.
abbrev pub ready : Engine
ready = record start {
  instruction = 0x007302B3;
  cdb = record { nb_active_lanes = 1; lane = record { qr = 1; result = 7; valid = true } ∷ [] };
  exu = record {
    units = record unit { busy = false } ∷ idle_unit ∷ [];
    ready_list = [];
    done_list = 0 ∷ [];
  };
  exb = record {
    buf = record waiter { vj = 42; rj = true; vk = 7; rk = true } ∷ free_entry ∷ [];
    ready_list = [];
  };
  rob = record buffer { commit_ptr = 1; cnt = 1 };
  reg = record file { x = set zeros 5 42; d = set (replicate 32 false) 6 true };
}

pub start-ready : before_issue true start ≡ some ready
unfolding before_issue fetch mem_read read_loop word_bytes word_of commit rob_commit retire
    reg_write_data forward_commit write_back store_lanes done_from put_results first_match execute
start-ready = refl

pub ready-Defined : All Defined ready.exb.buf
unfolding alu_exec
ready-Defined = ((λ h. (49, refl)), ((λ h. (0, refl)), tt))
