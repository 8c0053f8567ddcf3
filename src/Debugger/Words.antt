-- ===== src/Debugger/Words.antt =====
-- How sw/ELE749_projet1-develop/src/debugger.c reads a line: its words, and the name of the
-- command.
use rv.Debugger.Endless.{is_a_cmd}
use rv.Common.{
  elim-false, append-nil, append_assoc, ◌++◌, ◌↔◌, ◌≢◌, reverse, if◌then◌else◌, false, Bool-cases,
  All, ℕ, ◌≡◌, refl, sym, subst, ap, ap₂, ◌∙◌, inl, inr, Bool, true, List, [], ◌∷◌, map, arith,
}
use rv.Rv32.Machine.{DebuggerBaseCmd, Machine, Debugger}
use rv.Debugger.Text.{same_text, to_lower, is_delimiter, close, strtok}
use rv.Debugger.Names.{cmd_names, debugger_base_cmd_str}
use rv.Debugger.Session.{is_name, find_cmd, debugger_cmd_parser}
use mathlib.Core.List.{reverse-cons}

to_lower_twice : (c : ℕ) → to_lower (to_lower c) ≡ to_lower c
to_lower_twice c = ground arith

lower_line_twice : (line : List ℕ) → map to_lower (map to_lower line) ≡ map to_lower line
lower_line_twice [] = refl
lower_line_twice (c ∷ cs) = ap₂ ◌∷◌ (to_lower_twice c) (lower_line_twice cs)

-- Capitals in a command line do not matter.
pub debugger_cmd_parser-to_lower :
    (little : Bool) (long_max : ℕ) (malloc : Machine → Bool) (d : Debugger) (line : List ℕ)
    (m : Machine)
    → debugger_cmd_parser little long_max malloc d (map to_lower line) m
      ≡ debugger_cmd_parser little long_max malloc d line m
unfolding debugger_cmd_parser
debugger_cmd_parser-to_lower little long_max malloc d line m =
    rw (debugger_cmd_parser, lower_line_twice line) refl

pub same_text-eq : (s t : List ℕ) → same_text s t ≡ true → s ≡ t
same_text-eq [] [] h = refl
same_text-eq [] (d ∷ ds) h = absurd (cc)
same_text-eq (c ∷ cs) [] h = absurd (cc)
same_text-eq (c ∷ cs) (d ∷ ds) h = ap₂ ◌∷◌ (ground arith) (same_text-eq cs ds (ground arith))

-- A predicate at every name of a list.
by_names :
    (P : List ℕ → Type 0) (arg : List ℕ) (names : List (List ℕ))
    → All P names
    → is_name arg names ≡ true
    → P arg
by_names P arg [] h e = absurd (cc)
by_names P arg (name ∷ names) h e = elim (Bool-cases (same_text arg name)) [
  | inl same ↦ subst P (sym (same_text-eq arg name same)) h.0
  | inr other ↦ by_names P arg names h.1 (ground (arith, other))
]

abbrev Finds : DebuggerBaseCmd → List ℕ → Type 0
Finds cmd arg = find_cmd arg debugger_base_cmd_str ≡ cmd

all_found : (cmd : DebuggerBaseCmd) → All (Finds cmd) (cmd_names cmd)
unfolding find_cmd
all_found DebuggerBaseCmd.break = (refl, (refl, (refl, tt)))
all_found DebuggerBaseCmd.jump = (refl, (refl, (refl, tt)))
all_found DebuggerBaseCmd.delete = (refl, (refl, (refl, tt)))
all_found DebuggerBaseCmd.disable = (refl, (refl, tt))
all_found DebuggerBaseCmd.enable = (refl, (refl, (refl, tt)))
all_found DebuggerBaseCmd.print = (refl, (refl, tt))
all_found DebuggerBaseCmd.dump = (refl, (refl, tt))
all_found DebuggerBaseCmd.step = (refl, (refl, tt))
all_found DebuggerBaseCmd.continue = (refl, (refl, tt))
all_found DebuggerBaseCmd.help = (refl, (refl, tt))
all_found DebuggerBaseCmd.exit = (refl, (refl, (refl, (refl, tt))))
all_found DebuggerBaseCmd.write = (refl, (refl, (refl, tt)))
all_found DebuggerBaseCmd.not_a_cmd = tt

found_name :
    (arg : List ℕ) (cmds : List DebuggerBaseCmd) (cmd : DebuggerBaseCmd)
    → is_a_cmd cmd ≡ true
    → find_cmd arg cmds ≡ cmd
    → is_name arg (cmd_names cmd) ≡ true
unfolding find_cmd
found_name arg [] cmd real e = absurd (absurd_lem cmd real e)
  where
    absurd_lem : (c : DebuggerBaseCmd) → is_a_cmd c ≡ true → DebuggerBaseCmd.not_a_cmd ≡ c → ⊥
    absurd_lem c h e = cc
found_name arg (c ∷ cmds) cmd real e = elim (Bool-cases (is_name arg (cmd_names c))) [
  | inl yes_ ↦
      subst (λ k. is_name arg (cmd_names k) ≡ true)
        (sym (ap (λ t. if t then c else find_cmd arg cmds) yes_) ∙ e) yes_
  | inr no_ ↦
      found_name arg cmds cmd real (sym (ap (λ t. if t then c else find_cmd arg cmds) no_) ∙ e)
]

-- A word selects a command exactly if it is one of the command's names: no name is hidden by that
-- of an earlier command.
pub find_cmd_iff :
    (arg : List ℕ) (cmd : DebuggerBaseCmd)
    → is_a_cmd cmd ≡ true
    → (find_cmd arg debugger_base_cmd_str ≡ cmd) ↔ (is_name arg (cmd_names cmd) ≡ true)
find_cmd_iff arg cmd real = (
  found_name arg debugger_base_cmd_str cmd real,
  by_names (Finds cmd) arg (cmd_names cmd) (all_found cmd),
)

-- A word: bytes that are no delimiters, at least one.
abbrev pub IsWord : List ℕ → Type 0
IsWord w = (w ≢ []) × All (λ c. is_delimiter c ≡ false) w

-- The words, each with a blank behind it.
pub spaced : List (List ℕ) → List ℕ
spaced [] = []
spaced (w ∷ ws) = w ++ (b' ' ∷ spaced ws)

rev_onto : List ℕ → List ℕ → List ℕ
rev_onto [] begun = begun
rev_onto (c ∷ cs) begun = rev_onto cs (c ∷ begun)

strtok-word :
    (w begun rest : List ℕ)
    → All (λ c. is_delimiter c ≡ false) w
    → strtok is_delimiter begun (w ++ rest) ≡ strtok is_delimiter (rev_onto w begun) rest
unfolding strtok rev_onto
strtok-word [] begun rest h = refl
strtok-word (c ∷ cs) begun rest h = elim-false _ _ h.0 ∙ strtok-word cs (c ∷ begun) rest h.1

reverse-rev_onto : (w begun : List ℕ) → reverse (rev_onto w begun) ≡ reverse begun ++ w
unfolding rev_onto
reverse-rev_onto [] begun = sym (append-nil (reverse begun))
reverse-rev_onto (c ∷ cs) begun =
    reverse-rev_onto cs (c ∷ begun)
    ∙ ap (λ (r : List ℕ). r ++ cs) (reverse-cons c begun)
    ∙ append_assoc (reverse begun) (c ∷ []) cs

close_lem :
    (begun : List ℕ) (ts : List (List ℕ)) → reverse begun ≢ [] → close begun ts ≡ reverse begun ∷ ts
close_lem [] ts h = absurd (h refl)
close_lem (c ∷ cs) ts h = refl

-- `strtok` finds the words of a line in which each has a blank behind it.
pub strtok-spaced : (ws : List (List ℕ)) → All IsWord ws → strtok is_delimiter [] (spaced ws) ≡ ws
unfolding strtok spaced
strtok-spaced [] h = refl
strtok-spaced (w ∷ ws) (word, rest) =
    let same : reverse (rev_onto w []) ≡ w = reverse-rev_onto w [] in
    strtok-word w [] (b' ' ∷ spaced ws) word.1
    ∙ close_lem (rev_onto w []) (strtok is_delimiter [] (spaced ws)) (λ e. word.0 (sym same ∙ e))
    ∙ ap₂ ◌∷◌ same (strtok-spaced ws rest)
