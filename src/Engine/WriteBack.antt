-- ===== src/Engine/WriteBack.antt =====
-- `write_back` and `execute` of sw/src/engine.c.
use rv.Common.{
  ◌==◌, if◌then◌else◌, ◌>>=◌, length, get_elem?, store, ℕ, ◌+◌, ◌-◌, min, Bool, true, false, not,
  ◌&&◌, Option, none, some, List, [], ◌∷◌, map,
}
use rv.Rob.{Rob, rob_write}
use rv.Engine.State.{Engine, CdbData, ExuData, ExbData, first_match}

-- READ CBD AND STORE IN ROB
unfoldable pub store_lanes : List CdbData → Rob → Option Rob
store_lanes [] r = some r
store_lanes (l ∷ ls) r =
    if l.valid
    then (do (_, r') ← rob_write l.qr l.result r; store_lanes ls r')
    else store_lanes ls r

abbrev pub reset_lane : CdbData → CdbData
reset_lane l = record l { valid = false }

abbrev pub is_done : ExuData → Bool
is_done u = u.busy && u.cycle_left == 0

-- The indices from `i` on of the units that are done.
unfoldable pub done_from : ℕ → List ExuData → List ℕ
done_from i [] = []
done_from i (u ∷ us) = let rest = done_from (i + 1) us in if is_done u then i ∷ rest else rest

-- Result `i` and those behind it go to lane `i` and those behind it, and their units are cleared.
unfoldable pub put_results :
    ℕ → List ℕ → List CdbData → List ExuData → Option (List CdbData × List ExuData)
put_results i [] lanes units = some (lanes, units)
put_results i (k ∷ ks) lanes units = do
  u ← get_elem? units k
  lanes' ← store lanes i (record { qr = u.qr; result = u.result; valid = true })
  units' ← store units k (record u { busy = false })
  put_results (i + 1) ks lanes' units'

abbrev pub snoop_j : List CdbData → ExbData → ExbData
snoop_j lanes x =
    if x.rj
    then x
    else elim (first_match x.qj lanes) [ none ↦ x | some v ↦ record x { vj = v; rj = true } ]

abbrev pub snoop_k : List CdbData → ExbData → ExbData
snoop_k lanes x =
    if x.rk
    then x
    else elim (first_match x.qk lanes) [ none ↦ x | some v ↦ record x { vk = v; rk = true } ]

-- Foward the results to EXB
abbrev pub snoop : List CdbData → ExbData → ExbData
snoop lanes x = if x.busy then snoop_k lanes (snoop_j lanes x) else x

unfoldable pub write_back : Engine → Option Engine
write_back e = do
  rob ← store_lanes e.cdb.lane e.rob
  let done = done_from 0 e.exu.units
  (lanes, units) ← put_results 0 done (map reset_lane e.cdb.lane) e.exu.units
  some (record e {
    rob = rob;
    cdb = record { nb_active_lanes = min (length e.cdb.lane) (length done); lane = lanes };
    exu = record (e.exu) { units = units; done_list = done };
    exb = record (e.exb) { buf = map (snoop lanes) e.exb.buf };
  })

abbrev pub tick : ExuData → ExuData
tick u = if u.busy && not (u.cycle_left == 0) then record u { cycle_left = u.cycle_left - 1 } else u

unfoldable pub execute : Engine → Engine
execute e = record e { exu = record (e.exu) { units = map tick e.exu.units } }
