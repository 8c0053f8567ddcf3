-- ===== src/Debugger/Breaks.antt =====
-- The break list of sw/ELE749_projet1-develop/src/debugger.c. The order of the list is that of its
-- nodes.
use rv.Common.{
  ltb, ◌==◌, if◌then◌else◌, ◌>>=◌, ℕ, ◌-◌, ◌%◌, Bool, true, false, not, Option, none, some, List,
  [], ◌∷◌, map,
}
use rv.Int.{pos, negsuc, ℤ}
use rv.Rv32.Machine.{BreakNode}
use rv.Proc.{proc_memsize, ProcState, proc_write_mem}
use rv.Rv32.Data.{object_of, read_value}

abbrev pub ebreak_inst : ℕ
ebreak_inst = 0x00100073

abbrev pub c_ebreak_inst : ℕ
c_ebreak_inst = 0x9002

unfoldable pub break_list_append : BreakNode → List BreakNode → List BreakNode
break_list_append new_node [] = new_node ∷ []
break_list_append new_node (node ∷ rest) = node ∷ break_list_append new_node rest

unfoldable pub break_list_get_instruction : ℕ → List BreakNode → ℕ
break_list_get_instruction addr [] = 0
break_list_get_instruction addr (node ∷ rest) =
    if node.addr == addr then node.inst else break_list_get_instruction addr rest

abbrev pub set_enabled : Bool → BreakNode → BreakNode
set_enabled e node = record node { is_enabled = e }

unfoldable pub break_list_disable_all : List BreakNode → Bool × List BreakNode
break_list_disable_all [] = (false, [])
break_list_disable_all (node ∷ rest) = (true, map (set_enabled false) (node ∷ rest))

unfoldable pub break_list_enable_all : List BreakNode → Bool × List BreakNode
break_list_enable_all [] = (false, [])
break_list_enable_all (node ∷ rest) = (true, map (set_enabled true) (node ∷ rest))

module _ (little : Bool) where
  -- `procWriteMem` of the first `n` bytes of a `uint32_t`.
  abbrev pub write_inst : ℕ → ℕ → ℕ → ProcState → Option ProcState
  write_inst addr w n p = do
    r ← proc_write_mem little addr (some (object_of little 4 w)) n p
    some r.1

  -- What `malloc` returns is a parameter. Without a memory the instruction is not set.
  unfoldable pub break_node_create : Bool → ℕ → ProcState → Option (Option BreakNode)
  break_node_create malloc addr p =
      if malloc
      then (do
        inst ← read_value little 4 addr p
        some (some (record { addr = addr; inst = inst; inst_len = 4; is_enabled = true })))
      else some none

  unfoldable pub break_list_remove :
      ℕ → List BreakNode → ProcState → Option (Bool × List BreakNode × ProcState)
  break_list_remove addr [] p = some (false, [], p)
  break_list_remove addr (node ∷ rest) p = elim (node.addr == addr) [
    | true ↦ do p' ← write_inst addr node.inst node.inst_len p; some (true, rest, p')
    | false ↦ do r ← break_list_remove addr rest p; some (r.0, node ∷ r.1, r.2)
  ]

  unfoldable pub break_list_remove_all : List BreakNode → ProcState → Option ProcState
  break_list_remove_all [] p = some p
  break_list_remove_all (node ∷ rest) p = do
    p' ← write_inst node.addr node.inst node.inst_len p
    break_list_remove_all rest p'

  -- The result is the code that the function returns, the list and the processor.
  unfoldable pub break_list_disable :
      ℕ → List BreakNode → ProcState → Option (ℤ × List BreakNode × ProcState)
  break_list_disable addr [] p = some (negsuc 0, [], p)
  break_list_disable addr (node ∷ rest) p = elim (node.addr == addr) [
    | true ↦ if not node.is_enabled then some (pos 0, node ∷ rest, p) else do
      p' ← write_inst addr node.inst node.inst_len p
      some (pos 1, set_enabled false node ∷ rest, p')
    | false ↦ do r ← break_list_disable addr rest p; some (r.0, node ∷ r.1, r.2)
  ]

  unfoldable pub break_list_enable :
      ℕ → List BreakNode → ProcState → Option (ℤ × List BreakNode × ProcState)
  break_list_enable addr [] p = some (negsuc 0, [], p)
  break_list_enable addr (node ∷ rest) p = elim (node.addr == addr) [
    | true ↦ if node.is_enabled then some (pos 0, node ∷ rest, p) else do
      p' ←
          write_inst addr (if node.inst_len == 4 then ebreak_inst else c_ebreak_inst) node.inst_len
            p
      some (pos 1, set_enabled true node ∷ rest, p')
    | false ↦ do r ← break_list_enable addr rest p; some (r.0, node ∷ r.1, r.2)
  ]

-- The word at the address is read into a variable that nothing reads.
unfoldable pub is_addr_valid : ℕ → Bool
is_addr_valid addr =
    if ltb (proc_memsize - 1) addr then false else if addr % 2 == 1 then false else true
