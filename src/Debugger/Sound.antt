-- ===== src/Debugger/Sound.antt =====
-- The commands of sw/ELE749_projet1-develop/src/debugger.c that run no instruction keep the
-- processor valid.
use rv.Common.{
  ltb, ◌==◌, if◌then◌else◌, length, get_elem?, ℕ, ◌%◌, ◌^◌, sym, subst, ◌∙◌, Bool, not, Option,
  none, some, List, [], ◌∷◌, Yields, Yields-bind, Yields-some, Yields-elim, Yields-if,
}
use rv.Proc.{ProcState, proc_set_pc, proc_write_mem}
use rv.Rv32.Codes.{InstSet}
use rv.Rv32.Types.{decode_instruction_length}
use rv.Rv32.Data.{object_of}
use rv.Rv32.Machine.{BreakNode, DebuggerBaseCmd, Machine}
use rv.Rv32.Simulator.{simulator_fetch}
use rv.Rv32.Safety.Sound.{Valid, Sound, proc_set_pc-Valid, proc_write_mem-Valid}
use rv.Rv32.Safety.Machine.{SoundMachine, machine_bind, machine_some, machine_if}
use rv.Rv32.Safety.Round.{fetch_keeps, decode_keeps}
use rv.Debugger.Text.{same_text}
use rv.Debugger.Breaks.{
  ebreak_inst, c_ebreak_inst, break_list_get_instruction, is_addr_valid, write_inst,
  break_node_create, break_list_remove, break_list_remove_all, break_list_disable,
  break_list_enable,
}
use rv.Debugger.Commands.{
  all_word, address_arg, place_break, break_cmd, jump_cmd, delete_cmd, disable_cmd, enable_cmd,
  write_cmd,
}

-- The processor of a result that has others before it.
abbrev ValidLast : {A B : Type 0} → A × B × ProcState → Type 0
ValidLast r = Valid r.2

module _ (little : Bool) where
  write_inst-Sound : (addr w n : ℕ) {p : ProcState} → Valid p → Sound (write_inst little addr w n p)
  write_inst-Sound addr w n {p} v =
      Yields-bind Valid (proc_write_mem little addr (some (object_of little 4 w)) n p)
        (λ r e. Yields-some Valid (proc_write_mem-Valid little addr n (object_of little 4 w) v e))

  break_list_remove-Valid :
      (addr : ℕ) (nodes : List BreakNode) {p : ProcState}
      → Valid p
      → Yields ValidLast (break_list_remove little addr nodes p)
  unfolding break_list_remove
  break_list_remove-Valid addr [] v = Yields-some ValidLast v
  break_list_remove-Valid addr (node ∷ rest) {p} v =
      Yields-elim ValidLast (node.addr == addr)
        (Yields-bind ValidLast (write_inst little addr node.inst node.inst_len p)
          (λ q e. Yields-some ValidLast (write_inst-Sound addr node.inst node.inst_len v q e)))
        (Yields-bind ValidLast (break_list_remove little addr rest p)
          (λ r e. Yields-some ValidLast (break_list_remove-Valid addr rest v r e)))

  break_list_remove_all-Sound :
      (nodes : List BreakNode) {p : ProcState}
      → Valid p
      → Sound (break_list_remove_all little nodes p)
  unfolding break_list_remove_all
  break_list_remove_all-Sound [] v = Yields-some Valid v
  break_list_remove_all-Sound (node ∷ rest) {p} v =
      Yields-bind Valid (write_inst little node.addr node.inst node.inst_len p) (λ q e.
        break_list_remove_all-Sound rest (write_inst-Sound node.addr node.inst node.inst_len v q e))

  break_list_disable-Valid :
      (addr : ℕ) (nodes : List BreakNode) {p : ProcState}
      → Valid p
      → Yields ValidLast (break_list_disable little addr nodes p)
  unfolding break_list_disable
  break_list_disable-Valid addr [] v = Yields-some ValidLast v
  break_list_disable-Valid addr (node ∷ rest) {p} v =
      Yields-elim ValidLast (node.addr == addr)
        (Yields-if ValidLast (not node.is_enabled) (Yields-some ValidLast v) (
          Yields-bind ValidLast (write_inst little addr node.inst node.inst_len p)
            (λ q e. Yields-some ValidLast (write_inst-Sound addr node.inst node.inst_len v q e))))
        (Yields-bind ValidLast (break_list_disable little addr rest p)
          (λ r e. Yields-some ValidLast (break_list_disable-Valid addr rest v r e)))

  break_list_enable-Valid :
      (addr : ℕ) (nodes : List BreakNode) {p : ProcState}
      → Valid p
      → Yields ValidLast (break_list_enable little addr nodes p)
  unfolding break_list_enable
  break_list_enable-Valid addr [] v = Yields-some ValidLast v
  break_list_enable-Valid addr (node ∷ rest) {p} v =
      let w = if node.inst_len == 4 then ebreak_inst else c_ebreak_inst in
      Yields-elim ValidLast (node.addr == addr)
        (Yields-if ValidLast node.is_enabled (Yields-some ValidLast v) (
          Yields-bind ValidLast (write_inst little addr w node.inst_len p)
            (λ q e. Yields-some ValidLast (write_inst-Sound addr w node.inst_len v q e))))
        (Yields-bind ValidLast (break_list_enable little addr rest p)
          (λ r e. Yields-some ValidLast (break_list_enable-Valid addr rest v r e)))

abbrev pub OfMachine : Machine → Type 0
OfMachine m = Valid m.proc

abbrev pub OfCommand : DebuggerBaseCmd × Machine → Type 0
OfCommand r = Valid r.1.proc

module _ (little : Bool) (long_max : ℕ) where
  pub break_cmd-Sound :
      (malloc : Bool) (m : Machine)
      → Valid m.proc
      → SoundMachine (break_cmd little long_max malloc m)
  unfolding break_cmd break_node_create place_break
  break_cmd-Sound malloc m v = machine_if (ltb (length m.debugger_cmd.argv) 2) (machine_some v) (
      machine_bind (address_arg little long_max 1 m) (λ addr _.
        machine_if (not (is_addr_valid addr)) (machine_some v) (
          machine_if (not (break_list_get_instruction addr m.break_list == 0)) (machine_some v) (
            machine_bind (break_node_create little malloc addr m.proc)
              (λ created _. by_allocation created)))))
    where
      placed :
          (node : BreakNode) (l : InstSet) → SoundMachine (place_break little long_max l node m)
      placed node InstSet.rv32e =
          machine_bind (write_inst little node.addr ebreak_inst node.inst_len m.proc) (λ p e.
            machine_some (write_inst-Sound little node.addr ebreak_inst node.inst_len v p e))
      placed node InstSet.rvc =
          machine_bind (write_inst little node.addr c_ebreak_inst 2 m.proc)
            (λ p e. machine_some (write_inst-Sound little node.addr c_ebreak_inst 2 v p e))

      by_allocation :
          (created : Option BreakNode)
          → SoundMachine (elim created [
            | none ↦ some m
            | some new_node ↦
                place_break little long_max (decode_instruction_length new_node.inst) new_node m
          ])
      by_allocation none = machine_some v
      by_allocation (some node) = placed node (decode_instruction_length node.inst)

  pub jump_cmd-Sound : (m : Machine) → Valid m.proc → SoundMachine (jump_cmd little long_max m)
  unfolding jump_cmd
  jump_cmd-Sound m v = machine_if (ltb (length m.debugger_cmd.argv) 2) (machine_some v) (
      machine_bind (address_arg little long_max 1 m) (λ addr _.
        machine_if (not (is_addr_valid addr)) (machine_some v) (
          let there : Machine = record m { proc = (proc_set_pc addr m.proc).1 } in
          machine_bind (simulator_fetch little there) (λ f e. λ m' d.
            subst Valid (sym (decode_keeps f.0 f.1 m' d ∙ fetch_keeps little there f e))
              (proc_set_pc-Valid addr v)))))

  pub delete_cmd-Sound : (m : Machine) → Valid m.proc → SoundMachine (delete_cmd little long_max m)
  unfolding delete_cmd
  delete_cmd-Sound m v = machine_if (ltb (length m.debugger_cmd.argv) 2) (machine_some v) (
      machine_bind (get_elem? m.debugger_cmd.argv 1) (λ s _.
        machine_if (same_text s all_word)
          (machine_bind (break_list_remove_all little m.break_list m.proc)
            (λ p e. machine_some (break_list_remove_all-Sound little m.break_list v p e)))
          (machine_bind (address_arg little long_max 1 m) (λ addr _.
            machine_bind (break_list_remove little addr m.break_list m.proc)
              (λ r e. machine_some (break_list_remove-Valid little addr m.break_list v r e))))))

  pub disable_cmd-Sound :
      (m : Machine) → Valid m.proc → SoundMachine (disable_cmd little long_max m)
  unfolding disable_cmd
  disable_cmd-Sound m v = machine_if (not (length m.debugger_cmd.argv == 2)) (machine_some v) (
      machine_bind (get_elem? m.debugger_cmd.argv 1) (λ s _.
        machine_if (same_text s all_word) (machine_some v) (
          machine_bind (address_arg little long_max 1 m) (λ addr _.
            machine_bind (break_list_disable little addr m.break_list m.proc)
              (λ r e. machine_some (break_list_disable-Valid little addr m.break_list v r e))))))

  pub enable_cmd-Sound : (m : Machine) → Valid m.proc → SoundMachine (enable_cmd little long_max m)
  unfolding enable_cmd
  enable_cmd-Sound m v = machine_if (not (length m.debugger_cmd.argv == 2)) (machine_some v) (
      machine_bind (get_elem? m.debugger_cmd.argv 1) (λ s _.
        machine_if (same_text s all_word) (machine_some v) (
          machine_bind (address_arg little long_max 1 m) (λ addr _.
            machine_bind (break_list_enable little addr m.break_list m.proc)
              (λ r e. machine_some (break_list_enable-Valid little addr m.break_list v r e))))))

  pub write_cmd-Sound : (m : Machine) → Valid m.proc → SoundMachine (write_cmd little long_max m)
  unfolding write_cmd
  write_cmd-Sound m v = machine_if (not (length m.debugger_cmd.argv == 3)) (machine_some v) (
      machine_bind (address_arg little long_max 1 m) (λ addr _.
        machine_bind (address_arg little long_max 2 m) (λ w _.
          let byte = object_of little 1 (w % 2 ^ 8) in
          machine_bind (proc_write_mem little addr (some byte) 1 m.proc)
            (λ r e. machine_some (proc_write_mem-Valid little addr 1 byte v e)))))
