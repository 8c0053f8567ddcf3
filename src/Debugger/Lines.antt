-- ===== src/Debugger/Lines.antt =====
-- Which commands of sw/ELE749_projet1-develop/src/debugger.c leave the input and the command as
-- they are: all but `step` and `continue`, which may run a session.
use rv.Common.{
  ltb, ◌==◌, >>=-eq-some, length, get_elem?, ℕ, ◌%◌, ◌^◌, ◌≡◌, refl, subst, Bool, true, false, not,
  Option, none, some, some-injective, Yields, Yields-bind, Yields-some, Yields-if,
}
use rv.Proc.{proc_get_pc, proc_set_pc, proc_write_mem, proc_read_mem}
use rv.Rv32.Codes.{InstSet}
use rv.Rv32.Types.{decode_instruction_length, decode_instruction_type}
use rv.Rv32.Decode.{decode_instruction}
use rv.Rv32.Data.{object_of}
use rv.Rv32.Machine.{BreakNode, DebuggerBaseCmd, Machine, Debugger, simulator_set_state}
use rv.Rv32.Simulator.{simulator_decode, simulator_fetch}
use rv.Debugger.Text.{same_text}
use rv.Debugger.Breaks.{
  ebreak_inst, c_ebreak_inst, break_list_get_instruction, is_addr_valid, write_inst,
  break_node_create, break_list_remove, break_list_remove_all, break_list_disable,
  break_list_enable,
}
use rv.Debugger.Commands.{
  all_word, exit_cmd, address_arg, place_break, break_cmd, jump_cmd, delete_cmd, disable_cmd,
  enable_cmd, write_cmd,
}
use rv.Debugger.Session.{run_cmd}

-- The input and the command are those of `m`.
pub record SameInput (m m' : Machine) : Type 0 where
  pub input : m'.stdin ≡ m.stdin
  pub command : m'.debugger_cmd ≡ m.debugger_cmd

pub same_input : {m : Machine} → SameInput m m
same_input = record { input = refl; command = refl }

simulator_fetch-SameInput :
    (little : Bool) (m : Machine) (f : ℕ × Machine)
    → simulator_fetch little m ≡ some f
    → SameInput m f.1
unfolding simulator_fetch
simulator_fetch-SameInput little m f e =
    let start = object_of little 4 m.inst.inst in
    let (r, _, e₁) =
      >>=-eq-some (proc_read_mem little (proc_get_pc m.proc) (some start) 4 m.proc) _ e in
    let (d, _, e₂) = >>=-eq-some r.1 _ e₁ in
    subst (λ (g : ℕ × Machine). SameInput m g.1) (some-injective _ _ e₂)
      (record { input = refl; command = refl })

module _ (little : Bool) (long_max : ℕ) (m : Machine) where
  abbrev Kept : Option Machine → Type 0
  Kept r = Yields (SameInput m) r

  kept : {r : Machine} → r.stdin ≡ m.stdin → r.debugger_cmd ≡ m.debugger_cmd → Kept (some r)
  kept i c = Yields-some (SameInput m) (record { input = i; command = c })

  break_cmd-Kept : (malloc : Bool) → Kept (break_cmd little long_max malloc m)
  unfolding break_cmd place_break
  break_cmd-Kept malloc =
      Yields-if (SameInput m) (ltb (length m.debugger_cmd.argv) 2) (kept refl refl) (
        Yields-bind (SameInput m) (address_arg little long_max 1 m) (λ addr _.
          Yields-if (SameInput m) (not (is_addr_valid addr)) (kept refl refl) (
            Yields-if (SameInput m) (not (break_list_get_instruction addr m.break_list == 0))
              (kept refl refl)
              (Yields-bind (SameInput m) (break_node_create little malloc addr m.proc)
                (λ created _. by_allocation created)))))
    where
      placed : (node : BreakNode) (l : InstSet) → Kept (place_break little long_max l node m)
      placed node InstSet.rv32e =
          Yields-bind (SameInput m) (write_inst little node.addr ebreak_inst node.inst_len m.proc)
            (λ p e. kept refl refl)
      placed node InstSet.rvc =
          Yields-bind (SameInput m) (write_inst little node.addr c_ebreak_inst 2 m.proc)
            (λ p e. kept refl refl)

      by_allocation :
          (created : Option BreakNode)
          → Kept (elim created [
            | none ↦ some m
            | some new_node ↦
                place_break little long_max (decode_instruction_length new_node.inst) new_node m
          ])
      by_allocation none = kept refl refl
      by_allocation (some node) = placed node (decode_instruction_length node.inst)

  jump_cmd-Kept : Kept (jump_cmd little long_max m)
  unfolding jump_cmd simulator_decode
  jump_cmd-Kept = Yields-if (SameInput m) (ltb (length m.debugger_cmd.argv) 2) (kept refl refl) (
      Yields-bind (SameInput m) (address_arg little long_max 1 m) (λ addr _.
        Yields-if (SameInput m) (not (is_addr_valid addr)) (kept refl refl) (
          let there : Machine = record m { proc = (proc_set_pc addr m.proc).1 } in
          Yields-bind (SameInput m) (simulator_fetch little there) (λ f e.
            Yields-bind (SameInput m) (decode_instruction f.0) (λ inst _.
              Yields-bind (SameInput m) (decode_instruction_type f.0) (λ type _.
                let g = simulator_fetch-SameInput little there f e in kept g.input g.command))))))

  delete_cmd-Kept : Kept (delete_cmd little long_max m)
  unfolding delete_cmd
  delete_cmd-Kept = Yields-if (SameInput m) (ltb (length m.debugger_cmd.argv) 2) (kept refl refl) (
      Yields-bind (SameInput m) (get_elem? m.debugger_cmd.argv 1) (λ s _.
        Yields-if (SameInput m) (same_text s all_word)
          (Yields-bind (SameInput m) (break_list_remove_all little m.break_list m.proc)
            (λ p e. kept refl refl))
          (Yields-bind (SameInput m) (address_arg little long_max 1 m) (λ addr _.
            Yields-bind (SameInput m) (break_list_remove little addr m.break_list m.proc)
              (λ r e. kept refl refl)))))

  disable_cmd-Kept : Kept (disable_cmd little long_max m)
  unfolding disable_cmd
  disable_cmd-Kept =
      Yields-if (SameInput m) (not (length m.debugger_cmd.argv == 2)) (kept refl refl) (
        Yields-bind (SameInput m) (get_elem? m.debugger_cmd.argv 1) (λ s _.
          Yields-if (SameInput m) (same_text s all_word) (kept refl refl) (
            Yields-bind (SameInput m) (address_arg little long_max 1 m) (λ addr _.
              Yields-bind (SameInput m) (break_list_disable little addr m.break_list m.proc)
                (λ r e. kept refl refl)))))

  enable_cmd-Kept : Kept (enable_cmd little long_max m)
  unfolding enable_cmd
  enable_cmd-Kept =
      Yields-if (SameInput m) (not (length m.debugger_cmd.argv == 2)) (kept refl refl) (
        Yields-bind (SameInput m) (get_elem? m.debugger_cmd.argv 1) (λ s _.
          Yields-if (SameInput m) (same_text s all_word) (kept refl refl) (
            Yields-bind (SameInput m) (address_arg little long_max 1 m) (λ addr _.
              Yields-bind (SameInput m) (break_list_enable little addr m.break_list m.proc)
                (λ r e. kept refl refl)))))

  write_cmd-Kept : Kept (write_cmd little long_max m)
  unfolding write_cmd
  write_cmd-Kept =
      Yields-if (SameInput m) (not (length m.debugger_cmd.argv == 3)) (kept refl refl) (
        Yields-bind (SameInput m) (address_arg little long_max 1 m) (λ addr _.
          Yields-bind (SameInput m) (address_arg little long_max 2 m) (λ w _.
            let byte = object_of little 1 (w % 2 ^ 8) in
            Yields-bind (SameInput m) (proc_write_mem little addr (some byte) 1 m.proc)
              (λ r e. kept refl refl))))

-- The commands that run an instruction.
abbrev pub runs_inst : DebuggerBaseCmd → Bool
runs_inst DebuggerBaseCmd.step = true
runs_inst DebuggerBaseCmd.continue = true
runs_inst _ = false

pub run_cmd-SameInput :
    (little : Bool) (long_max : ℕ) (malloc : Machine → Bool) (debugger : Debugger)
    (cmd : DebuggerBaseCmd) (m : Machine)
    → runs_inst cmd ≡ false
    → Yields (SameInput m) (run_cmd little long_max malloc debugger cmd m)
unfolding run_cmd exit_cmd simulator_set_state
run_cmd-SameInput l x malloc db DebuggerBaseCmd.break m h = break_cmd-Kept l x m (malloc m)
run_cmd-SameInput l x malloc db DebuggerBaseCmd.jump m h = jump_cmd-Kept l x m
run_cmd-SameInput l x malloc db DebuggerBaseCmd.delete m h = delete_cmd-Kept l x m
run_cmd-SameInput l x malloc db DebuggerBaseCmd.disable m h = disable_cmd-Kept l x m
run_cmd-SameInput l x malloc db DebuggerBaseCmd.enable m h = enable_cmd-Kept l x m
run_cmd-SameInput l x malloc db DebuggerBaseCmd.step m h = absurd (cc)
run_cmd-SameInput l x malloc db DebuggerBaseCmd.continue m h = absurd (cc)
run_cmd-SameInput l x malloc db DebuggerBaseCmd.exit m h =
    Yields-some (SameInput m) (record { input = refl; command = refl })
run_cmd-SameInput l x malloc db DebuggerBaseCmd.write m h = write_cmd-Kept l x m
run_cmd-SameInput l x malloc db _ m h = Yields-some (SameInput m) same_input
