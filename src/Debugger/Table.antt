-- ===== src/Debugger/Table.antt =====
-- The break list of sw/ELE749_projet1-develop/src/debugger.c as a table from addresses to nodes.
use rv.Common.{
  ◌==◌, if◌then◌else◌, Bool-cases, ◌>>=◌, length, get_elem?, ℕ, ◌≡◌, refl, inl, inr, Bool, true,
  false, not, Option, none, some, List, [], ◌∷◌, arith,
}
use rv.Int.{ℤ, pos, negsuc}
use rv.Proc.{ProcState}
use rv.Rv32.Machine.{BreakNode, Machine}
use rv.Debugger.Text.{same_text}
use rv.Debugger.Breaks.{
  ebreak_inst, c_ebreak_inst, break_list_get_instruction, set_enabled, break_list_disable_all,
  break_list_enable_all, write_inst, break_list_remove, break_list_disable, break_list_enable,
}
use rv.Debugger.Commands.{all_word, disable_cmd, enable_cmd}

-- The node of an address: the first one with it.
unfoldable pub lookup : ℕ → List BreakNode → Option BreakNode
lookup addr [] = none
lookup addr (node ∷ rest) = elim (node.addr == addr) [ true ↦ some node | false ↦ lookup addr rest ]

-- The table without the node of an address, and with that node changed.
unfoldable pub erase : ℕ → List BreakNode → List BreakNode
erase addr [] = []
erase addr (node ∷ rest) = elim (node.addr == addr) [ true ↦ rest | false ↦ node ∷ erase addr rest ]

unfoldable pub update : ℕ → (BreakNode → BreakNode) → List BreakNode → List BreakNode
update addr f [] = []
update addr f (node ∷ rest) = elim (node.addr == addr) [
  | true ↦ f node ∷ rest
  | false ↦ node ∷ update addr f rest
]

abbrev pub inst_of : Option BreakNode → ℕ
inst_of none = 0
inst_of (some node) = node.inst

module _ (little : Bool) (addr : ℕ) (nodes : List BreakNode) (p : ProcState) where
  -- The walks of the code on a table with a given answer of `lookup`.
  abbrev pub removed : Option BreakNode → Option (Bool × List BreakNode × ProcState)
  removed none = some (false, nodes, p)
  removed (some node) = do
    p' ← write_inst little addr node.inst node.inst_len p
    some (true, erase addr nodes, p')

  abbrev pub disabled : Option BreakNode → Option (ℤ × List BreakNode × ProcState)
  disabled none = some (negsuc 0, nodes, p)
  disabled (some node) = if not node.is_enabled then some (pos 0, nodes, p) else do
    p' ← write_inst little addr node.inst node.inst_len p
    some (pos 1, update addr (set_enabled false) nodes, p')

  abbrev pub enabled : Option BreakNode → Option (ℤ × List BreakNode × ProcState)
  enabled none = some (negsuc 0, nodes, p)
  enabled (some node) = if node.is_enabled then some (pos 0, nodes, p) else do
    p' ←
        write_inst little addr (if node.inst_len == 4 then ebreak_inst else c_ebreak_inst)
          node.inst_len p
    some (pos 1, update addr (set_enabled true) nodes, p')

-- What one function of the code does is what a walk of the table does.
pub record Walks (little : Bool) (addr : ℕ) (nodes : List BreakNode) (p : ProcState) : Type 0 where
  pub gets : break_list_get_instruction addr nodes ≡ inst_of (lookup addr nodes)
  pub removes :
      break_list_remove little addr nodes p ≡ removed little addr nodes p (lookup addr nodes)
  pub disables :
      break_list_disable little addr nodes p ≡ disabled little addr nodes p (lookup addr nodes)
  pub enables :
      break_list_enable little addr nodes p ≡ enabled little addr nodes p (lookup addr nodes)

Walks-here :
    (little : Bool) (addr : ℕ) (node : BreakNode) (rest : List BreakNode) (p : ProcState)
    → (node.addr == addr) ≡ true
    → Walks little addr (node ∷ rest) p
unfolding break_list_get_instruction break_list_remove break_list_disable break_list_enable lookup
    erase update
Walks-here little addr node rest p e = record {
  gets = ground (arith, e);
  removes = ground (arith, e);
  disables = ground (arith, e);
  enables = ground (arith, e);
}

Walks-there :
    (little : Bool) (addr : ℕ) (node : BreakNode) (rest : List BreakNode) (p : ProcState)
    → (node.addr == addr) ≡ false
    → Walks little addr rest p
    → Walks little addr (node ∷ rest) p
unfolding break_list_get_instruction break_list_remove break_list_disable break_list_enable lookup
    erase update
Walks-there little addr node rest p e ih = record {
  gets = ground (arith, e, ih.gets);
  removes = ground (arith, e, ih.removes);
  disables = ground (arith, e, ih.disables);
  enables = ground (arith, e, ih.enables);
}

-- `breakListGetInstruction`, `breakListRemove`, `breakListDisable` and `breakListEnable` are what a
-- lookup in a table and a change at one address would do, on every branch: without a node nothing
-- is written and the list stays; else the bytes of the found node alone are written, and that node
-- alone is erased or changed.
pub break_list-Walks :
    (little : Bool) (addr : ℕ) (nodes : List BreakNode) (p : ProcState) → Walks little addr nodes p
unfolding break_list_get_instruction break_list_remove break_list_disable break_list_enable lookup
    erase update
break_list-Walks little addr [] p = record {
  gets = refl;
  removes = refl;
  disables = refl;
  enables = refl;
}
break_list-Walks little addr (node ∷ rest) p = elim (Bool-cases (node.addr == addr)) [
  | inl e ↦ Walks-here little addr node rest p e
  | inr e ↦ Walks-there little addr node rest p e (break_list-Walks little addr rest p)
]

-- `disable all` and `enable all` write no memory: the processor stays as it is.
pub disable_enable-all :
    (little : Bool) (long_max : ℕ) (m : Machine) (s : List ℕ)
    → get_elem? m.debugger_cmd.argv 1 ≡ some s
    → same_text s all_word ≡ true
    → (m₁ : Machine) × (m₂ : Machine) × (disable_cmd little long_max m ≡ some m₁)
      × (enable_cmd little long_max m ≡ some m₂)
      × (m₁.proc ≡ m.proc)
      × (m₂.proc ≡ m.proc)
unfolding disable_cmd enable_cmd
disable_enable-all little long_max m s second all =
    elim (Bool-cases (not (length m.debugger_cmd.argv == 2))) [
      | inl more ↦ (m, m, rw more refl, rw more refl, refl, refl)
      | inr two ↦ (
        record m { break_list = (break_list_disable_all m.break_list).1 },
        record m { break_list = (break_list_enable_all m.break_list).1 },
        rw (two, second, all) refl,
        rw (two, second, all) refl,
        refl,
        refl,
      )
    ]
