-- ===== src/Engine/Issue.antt =====
-- `issue` of sw/src/engine.c: ready operations go to free units, both in the order of their arrays.
use rv.Common.{
  ltb, if◌then◌else◌, ◌>>=◌, length, get_elem?, store, ℕ, zero, suc, ◌+◌, Bool, true, false, ◌&&◌,
  Option, none, some, List, [], ◌∷◌,
}
use rv.Alu.{alu_exec, alu_get_cycle}
use rv.Engine.State.{Engine, ExuData, ExbData}

abbrev pub is_ready : ExbData → Bool
is_ready x = x.busy && (x.rj && x.rk)

unfoldable pub ready_from : ℕ → List ExbData → List ℕ
ready_from i [] = []
ready_from i (x ∷ xs) = let rest = ready_from (i + 1) xs in if is_ready x then i ∷ rest else rest

unfoldable pub free_from : ℕ → List ExuData → List ℕ
free_from i [] = []
free_from i (u ∷ us) = let rest = free_from (i + 1) us in if u.busy then rest else i ∷ rest

-- The selection loop, with the rounds left and the ready lists from the current round on.
unfoldable pub issue_loop :
    ℕ → List ℕ → List ℕ → List ExuData → List ExbData → Option (List ExuData × List ExbData)
issue_loop zero us xs units buf = some (units, buf)
issue_loop (suc n) (u ∷ us) (x ∷ xs) units buf = do
  entry ← get_elem? buf x
  unit ← get_elem? units u
  result ← alu_exec entry.f10 entry.vj entry.vk
  units' ←
      store units u (record {
        result = result;
        cycle_left = alu_get_cycle entry.f10;
        busy = true;
        qr = entry.qr;
      })
  buf' ← store buf x (record entry { busy = false })
  issue_loop n us xs units' buf'
issue_loop (suc n) _ _ units buf = none

unfoldable pub issue : Engine → Option (ℕ × Engine)
issue e = do
  let ready = ready_from 0 e.exb.buf
  let free = free_from 0 e.exu.units
  let nb_issue = if ltb (length free) (length ready) then length free else length ready
  (units, buf) ← issue_loop nb_issue free ready e.exu.units e.exb.buf
  some (
    nb_issue,
    record e {
      exu = record (e.exu) { units = units; ready_list = free };
      exb = record { buf = buf; ready_list = ready };
    },
  )
