-- ===== src/Engine/Invariant.antt =====
-- What holds of the engine between phases: every tag that is used as an index of the reorder buffer
-- lies inside it, and the register file is a whole one.
use rv.Common.{All, ℕ, ◌<◌, ◌≡◌, true}
use rv.Rob.Invariant.{IsValid as RobIsValid}
use rv.Reg.Invariant.{IsValid as RegIsValid}
use rv.Engine.State.{Engine, CdbData, ExuData, ExbData}

-- The fields of a lane, a unit or an entry that is not in use may hold anything.
abbrev pub LaneOk : ℕ → CdbData → Type 0
LaneOk n l = l.valid ≡ true → l.qr < n

abbrev pub UnitOk : ℕ → ExuData → Type 0
UnitOk n u = u.busy ≡ true → u.qr < n

abbrev pub EntryOk : ℕ → ExbData → Type 0
EntryOk n x = x.busy ≡ true → x.qr < n

abbrev pub TagOk : ℕ → ℕ → Type 0
TagOk n t = t < n

-- `n` is the size of the reorder buffer.
pub record IsValid (n : ℕ) (e : Engine) : Type 0 where
  pub rob : RobIsValid e.rob
  pub rob_size : e.rob.size ≡ n
  pub reg : RegIsValid e.reg
  pub registers : e.reg.size ≡ 32
  pub tags : All (TagOk n) e.reg.s
  pub lanes : All (LaneOk n) e.cdb.lane
  pub units : All (UnitOk n) e.exu.units
  pub entries : All (EntryOk n) e.exb.buf
