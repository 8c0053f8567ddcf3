-- ===== src/Debugger/Undo.antt =====
-- `breakCmd` and `deleteCmd` of sw/ELE749_projet1-develop/src/debugger.c together.
use rv.Common.{
  ◌<◌, ◌≤◌, elim-true, elim-false, ltb, ◌==◌, length, get_elem?, All, ℕ, zero, suc, ◌%◌, ◌^◌, ◌≡◌,
  refl, sym, ap, ◌∙◌, Bool, true, false, some, List, [], ◌∷◌, arith, ◌>>=◌,
}
use rv.Proc.{proc_memsize, ProcState}
use rv.Mem.{host_index}
use rv.Mem.Loop.{slot}
use rv.Proc.Invariant.{IsValid}
use rv.Debugger.Memory.{Bytes, word_at, read_value-Holds, write_inst-restores}
use rv.Debugger.Text.{same_text, strtol, to_u32}
use rv.Debugger.Commands.{break_cmd, delete_cmd, all_word, place_break}
use rv.Rv32.Types.{decode_instruction_length}
use rv.Rv32.Codes.{InstSet}
use rv.Rv32.Data.{bytes_of, object_of, read_value}
use rv.Rv32.Machine.{BreakNode, Machine}
use rv.Rv32.Program.{Holds}
use rv.Debugger.Breaks.{
  ebreak_inst, c_ebreak_inst, break_list_append, break_list_get_instruction, is_addr_valid,
  write_inst, break_node_create, break_list_remove,
}

-- No node has the address.
abbrev pub NoBreak : ℕ → List BreakNode → Type 0
NoBreak addr nodes = All (λ node. (node.addr == addr) ≡ false) nodes

pub get_instruction-NoBreak :
    (addr : ℕ) (nodes : List BreakNode)
    → NoBreak addr nodes
    → break_list_get_instruction addr nodes ≡ 0
unfolding break_list_get_instruction
get_instruction-NoBreak addr [] h = refl
get_instruction-NoBreak addr (node ∷ rest) h = rw (h.0) (get_instruction-NoBreak addr rest h.1)

pub is_addr_valid-lt : (addr : ℕ) → is_addr_valid addr ≡ true → addr < proc_memsize
unfolding is_addr_valid
is_addr_valid-lt addr h = ground arith

remove-append :
    (little : Bool) (addr : ℕ) (node : BreakNode) (nodes : List BreakNode) (p p' : ProcState)
    → NoBreak addr nodes
    → (node.addr == addr) ≡ true
    → write_inst little addr node.inst node.inst_len p ≡ some p'
    → break_list_remove little addr (break_list_append node nodes) p ≡ some (true, nodes, p')
unfolding break_list_remove break_list_append
remove-append little addr node [] p p' h same writes = elim-true _ _ same ∙ rw writes refl
remove-append little addr node (other ∷ rest) p p' h same writes =
    elim-false _ _ h.0 ∙ rw (remove-append little addr node rest p p' h.1 same writes) refl

module _ (long_max : ℕ) (m : Machine) (addr w : ℕ) where
  abbrev node_of : ℕ → ℕ → BreakNode
  node_of inst n = record { addr = addr; inst = inst; inst_len = n; is_enabled = true }

  abbrev with_break : ℕ → ℕ → ProcState → Machine
  with_break inst n p = record m {
    proc = p;
    break_list = break_list_append (node_of inst n) m.break_list;
  }

  abbrev covering : InstSet → ℕ × ℕ × ℕ
  covering InstSet.rv32e = (ebreak_inst, w, 4)
  covering InstSet.rvc = (c_ebreak_inst, w % 2 ^ 16, 2)

  back :
      (l : InstSet) (b : List ℕ)
      → Holds true b addr w
      → (j : ℕ) → j < (covering l).2
      → get_elem? (object_of true 4 (covering l).1) (host_index true (covering l).2 j)
        ≡ get_elem? b (slot proc_memsize addr j)
  unfolding bytes_of
  back InstSet.rv32e b holds j h = sym (holds j h)
  back InstSet.rvc b holds zero h = ap some (omega arith) ∙ sym (holds 0 (omega arith))
  back InstSet.rvc b holds (suc zero) h = ap some (omega arith) ∙ sym (holds 1 (omega arith))
  back InstSet.rvc b holds (suc (suc j)) h = absurd (omega arith)

  place_break_lem :
      (l : InstSet) (p : ProcState)
      → write_inst true addr (covering l).0 (covering l).2 m.proc ≡ some p
      → place_break true long_max l (node_of w 4) m
        ≡ some (with_break (covering l).1 (covering l).2 p)
  unfolding place_break
  place_break_lem InstSet.rv32e p writes = rw writes refl
  place_break_lem InstSet.rvc p writes = rw writes refl

  break_cmd_lem :
      (s : List ℕ) (p : ProcState)
      → ltb (length m.debugger_cmd.argv) 2 ≡ false
      → get_elem? m.debugger_cmd.argv 1 ≡ some s
      → to_u32 (strtol long_max s) ≡ addr
      → is_addr_valid addr ≡ true
      → break_list_get_instruction addr m.break_list ≡ 0
      → read_value true 4 addr m.proc ≡ some w
      → (let l = decode_instruction_length w in
          write_inst true addr (covering l).0 (covering l).2 m.proc ≡ some p)
      → (let l = decode_instruction_length w in
          break_cmd true long_max true m ≡ some (with_break (covering l).1 (covering l).2 p))
  unfolding break_cmd break_node_create
  break_cmd_lem s p enough second names fine free reads writes =
      rw (enough, second, names, fine, free, reads)
        (place_break_lem (decode_instruction_length w) p writes)

  delete_cmd_lem :
      (s : List ℕ) (inst n : ℕ) (p : ProcState)
      → ltb (length m.debugger_cmd.argv) 2 ≡ false
      → get_elem? m.debugger_cmd.argv 1 ≡ some s
      → same_text s all_word ≡ false
      → to_u32 (strtol long_max s) ≡ addr
      → NoBreak addr m.break_list
      → write_inst true addr inst n p ≡ some m.proc
      → delete_cmd true long_max (with_break inst n p) ≡ some m
  unfolding delete_cmd
  delete_cmd_lem s inst n p enough second one names free writes =
      let removes =
        remove-append true addr (node_of inst n) m.break_list p m.proc free (ground arith) writes in
      rw (enough, second, one, names, removes) refl

-- On a little-endian host and a valid processor whose memory has bytes, `break` at an address that
-- is valid and has no breakpoint, where the node is allocated, and then `delete` of the same
-- address, leave the whole state as it was, over an instruction of 32 bits and over one of 16.
pub delete_cmd-break_cmd :
    (long_max : ℕ) (m : Machine) (s : List ℕ) {b : List ℕ}
    → IsValid m.proc b
    → Bytes b
    → ltb (length m.debugger_cmd.argv) 2 ≡ false
    → get_elem? m.debugger_cmd.argv 1 ≡ some s
    → same_text s all_word ≡ false
    → is_addr_valid (to_u32 (strtol long_max s)) ≡ true
    → NoBreak (to_u32 (strtol long_max s)) m.break_list
    → (break_cmd true long_max true m >>= delete_cmd true long_max) ≡ some m
delete_cmd-break_cmd long_max m s {b} v bytes enough second one fine free =
    let addr = to_u32 (strtol long_max s) in
    let inside = is_addr_valid-lt addr fine in
    let (w, small, holds) = word_at true b addr bytes v.room in
    let l = decode_instruction_length w in
    let code = covering long_max m addr w l in
    let (p, covers, restores) =
      write_inst-restores true addr code.2 code.0 code.1 v inside (some_bytes l addr w)
        (few l addr w) (back long_max m addr w l b holds) in
    let reads = read_value-Holds true addr w v inside small holds in
    let breaks =
      break_cmd_lem long_max m addr w s p enough second refl fine
        (get_instruction-NoBreak addr m.break_list free) reads covers in
    rw breaks
      (delete_cmd_lem long_max m addr w s code.1 code.2 p enough second one refl free restores)
  where
    some_bytes : (l : InstSet) (addr w : ℕ) → 0 < (covering long_max m addr w l).2
    some_bytes InstSet.rv32e addr w = omega arith
    some_bytes InstSet.rvc addr w = omega arith

    few : (l : InstSet) (addr w : ℕ) → (covering long_max m addr w l).2 ≤ 4
    few InstSet.rv32e addr w = omega arith
    few InstSet.rvc addr w = omega arith
