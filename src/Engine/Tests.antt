-- ===== src/Engine/Tests.antt =====
-- The engine on concrete states.
use rv.Engine.Loop.{main_loop, main_loop-IsValid, AllDefined}
use rv.Engine.Safety.Issue.{Defined}
use rv.Engine.Safety.WriteBack.{FewDone}
use rv.Common.{
  subst, sym, some-injective, ◌∙◌, ◌*◌, ◌+◌, ℕ, ◌≡◌, arith, refl, set, replicate, All, inl, true,
  false, some, List, [], ◌∷◌, none,
}
use rv.Int.{pos}
use rv.Alu.{alu_exec}
use rv.Rob.{rob_commit, rob_issue, rob_full, rob_read}
use rv.Mem.{mem_read, read_loop}
use rv.Mem.Endian.{word_bytes, word_of}
use rv.Engine.WriteBack.{store_lanes, put_results, execute, done_from, write_back}
use rv.Reg.{reg_read_src, reg_read_data, reg_write_src}
use rv.Engine.Run.{fetch, before_issue, engine_run}
use rv.Engine.Issue.{ready_from, free_from, issue_loop, issue}
use rv.Engine.Dispatch.{place, enter, operand_j, operand_k, second_source, dispatch, operation}
use rv.Decoder.{format_of, main_decode, decode}
use rv.Engine.Commit.{commit, retire}
use rv.Engine.State.{first_match, Engine}
use rv.Engine.Invariant.{IsValid}
use rv.Engine.Safety.Cycle.{HasMemory, engine_run-IsValid, AllowedOps}
use rv.Engine.Example.{
  program, zeros, buffer, file, waiter, free_entry, lane, unit, idle_unit, start, junk,
  start-IsValid, start-HasMemory, ready, start-ready, ready-Defined,
}
use rv.Engine.Forward.{Caught, write_back-Caught}
use rv.Engine.Limits.{write_back_overflow}
use rv.Engine.Subtract.{sub_sra_lost}
use rv.Engine.Safety.Init.{engine_init-IsValid, given, Fit}
use rv.Engine.Init.{engine_init, Files, Parameters}
use rv.Decoder.Immediate.{encode_r}
use rv.Word.{u32}

start-FewDone : FewDone start
unfolding done_from
start-FewDone = omega arith

start-AllowedOps : AllowedOps true start
start-AllowedOps e₁ runs =
    subst (λ q. All Defined q.exb.buf) (some-injective ready e₁ (sym start-ready ∙ runs))
      ready-Defined

engine_run_example : (e' : Engine) × (engine_run true junk start ≡ some (pos 0, e')) × IsValid 4 e'
engine_run_example =
    engine_run-IsValid true junk start-IsValid start-HasMemory start-FewDone start-AllowedOps

-- The state before `issue`, with its waiting entry served.
ready-IsValid : IsValid 4 ready
ready-IsValid = record {
  rob = record {
    room = refl;
    small = omega arith;
    commit_in = omega arith;
    issue_in = omega arith;
    cnt_le = omega arith;
    window = inl refl;
  };
  rob_size = refl;
  reg = record {
    x_room = refl;
    s_room = refl;
    d_room = refl;
    zero_value = refl;
    zero_clean = refl;
  };
  registers = refl;
  tags = start-IsValid.tags;
  lanes = ((λ h. omega arith), tt);
  units = ((λ h. ground arith), ((λ h. ground arith), tt));
  entries = ((λ h. omega arith), ((λ h. omega arith), tt));
}

-- The state after `write_back` alone.
abbrev written_back : Engine
written_back = record start {
  cdb = ready.cdb;
  exu = ready.exu;
  exb = record { buf = record waiter { vk = 7; rk = true } ∷ free_entry ∷ []; ready_list = [] };
}

start-written_back : write_back start ≡ some written_back
unfolding write_back store_lanes done_from put_results first_match
start-written_back = refl

write_back-Caught_example : All (Caught written_back.cdb.lane) written_back.exb.buf
write_back-Caught_example = write_back-Caught start start-written_back

-- Two finished units and one lane, as `main` sets up.
abbrev crowded : Engine
crowded = record start { exu = record (start.exu) { units = unit ∷ unit ∷ [] } }

write_back_overflow_example : write_back crowded ≡ none
unfolding done_from
write_back_overflow_example = write_back_overflow crowded (omega arith)

sub_sra_lost_example :
    (alu_exec (operation (decode (encode_r 5 0 6 7 0x20))) 9 2 ≡ some 0)
    × (alu_exec (operation (decode (encode_r 5 5 6 7 0x20))) 9 2 ≡ some 0)
sub_sra_lost_example = sub_sra_lost 5 6 7 9 2 (omega arith) (omega arith) (omega arith)

-- An instruction, and no place for it in the execution buffer.
abbrev stuffed : Engine
stuffed = record start {
  instruction = 0x007302B3;
  exb = record { buf = waiter ∷ waiter ∷ []; ready_list = [] };
}

abbrev dropped : Engine
dropped = record stuffed {
  rob = record {
    commit_ptr = 0;
    issue_ptr = 3;
    size = 4;
    cnt = 3;
    entries = set buffer.entries 2 (record { dest = 5; value = 0; done = false });
  };
  reg = record file { s = set file.s 5 2; d = set file.d 5 true };
}

stuffed-dropped : dispatch junk stuffed ≡ some (pos 0, dropped)
unfolding dispatch rob_full decode format_of main_decode enter rob_issue operand_j reg_read_src
    reg_read_data rob_read first_match second_source operand_k reg_write_src place
stuffed-dropped = refl

-- A full reorder buffer without a result, and nothing to issue.
abbrev full : Engine
full = record start {
  exb = record { buf = []; ready_list = [] };
  rob = record buffer {
    size = 2;
    issue_ptr = 0;
    entries =
        record { dest = 6; value = 0; done = false }
        ∷ record { dest = 6; value = 0; done = false }
        ∷ [];
  };
}

abbrev full_ready : Engine
full_ready = record full { instruction = 0x007302B3; cdb = ready.cdb; exu = ready.exu }

abbrev full_issued : Engine
full_issued = record full_ready { exu = record (ready.exu) { ready_list = 0 ∷ 1 ∷ [] } }

full_before : before_issue true full ≡ some full_ready
unfolding before_issue fetch mem_read read_loop word_bytes word_of commit rob_commit retire
    write_back store_lanes done_from put_results execute
full_before = refl

full_issue : issue full_ready ≡ some (0, full_issued)
unfolding issue ready_from free_from issue_loop
full_issue = refl

abbrev parameters : Parameters
parameters = record { mem_size = 8; rob_size = 4; reg_size = 32 }

-- A file of one line.
abbrev files : Files
files = record { lines = some (replicate 10 48 ∷ []); strtol = λ buf. 0x007302B3 }

fit : Fit parameters buffer.entries zeros (unit ∷ idle_unit ∷ []) (lane ∷ []) program
fit = record {
  some_entries = omega arith;
  few_entries = omega arith;
  entries_room = refl;
  registers = refl;
  x_room = refl;
  lanes = ((λ h. omega arith), tt);
  some_memory = omega arith;
  memory_room = refl;
}

abbrev off : Engine
off = record start { rob = record buffer { size = 0 } }

engine_init_example :
    (e' : Engine) × (b' : List ℕ) × (engine_init true 12 parameters files
        (given (waiter ∷ []) buffer.entries zeros (unit ∷ idle_unit ∷ []) (lane ∷ []) program)
        off
      ≡ some (pos 0, e'))
    × IsValid 4 e'
    × HasMemory e'.mem b'
engine_init_example =
    engine_init-IsValid true 12 parameters files (waiter ∷ []) off refl (refl, tt) fit refl

-- One cycle from the start.
start-AllDefined : AllDefined true (junk ∷ []) start
unfolding AllDefined
start-AllDefined = (start-FewDone, start-AllowedOps, λ e' runs. tt)

main_loop_example :
    (e' : Engine) × (main_loop true (junk ∷ []) start ≡ some (pos 0, e'))
    × IsValid 4 e'
    × (e'.mem ≡ start.mem)
    × (e'.pc ≡ u32 (0 + 4 * 1))
main_loop_example =
    main_loop-IsValid true (junk ∷ []) start-IsValid start-HasMemory (omega arith) start-AllDefined
