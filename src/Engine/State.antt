-- ===== src/Engine/State.antt =====
-- The structures of sw/src/engine.c. An array and its size field are one list: they are created
-- and freed together, and the size does not change between. A list of indices is the part of its
-- array that its counter covers.
use rv.Common.{◌==◌, if◌then◌else◌, ℕ, Bool, ◌&&◌, Option, none, some, List, [], ◌∷◌}
use rv.Rob.{Rob}
use rv.Reg.{Reg}
use rv.Mem.{Mem}

-- `struct cdb_data`
pub record CdbData : Type 0 where
  pub qr : ℕ
  pub result : ℕ
  pub valid : Bool

-- `struct cdb`; `nb_lanes` is the length of `lane`.
pub record Cdb : Type 0 where
  pub nb_active_lanes : ℕ
  pub lane : List CdbData

-- `struct exu_data`, without `capabilities`, which nothing uses.
pub record ExuData : Type 0 where
  pub result : ℕ
  pub qr : ℕ
  pub cycle_left : ℕ
  pub busy : Bool

-- `struct exu`; `nb_units`, `nb_rdy` and `nb_done` are the lengths of the lists.
pub record Exu : Type 0 where
  pub units : List ExuData
  pub ready_list : List ℕ
  pub done_list : List ℕ

-- `struct exb_data`
pub record ExbData : Type 0 where
  pub f10 : ℕ
  pub vj : ℕ
  pub vk : ℕ
  pub qj : ℕ
  pub qk : ℕ
  pub qr : ℕ
  pub rj : Bool
  pub rk : Bool
  pub dirty : Bool
  pub busy : Bool

-- `struct exb`; `buf_size` and `nb_rdy` are the lengths of the lists, and `buf_cnt` is never used.
pub record Exb : Type 0 where
  pub buf : List ExbData
  pub ready_list : List ℕ

-- The static variables of engine.c and of the modules that it drives.
pub record Engine : Type 0 where
  pub pc : ℕ
  pub instruction : ℕ
  pub cdb : Cdb
  pub exu : Exu
  pub exb : Exb
  pub rob : Rob
  pub reg : Reg
  pub mem : Mem

-- The result on the first valid lane with that tag, in the order of the lanes.
unfoldable pub first_match : ℕ → List CdbData → Option ℕ
first_match tag [] = none
first_match tag (l ∷ ls) = if l.valid && l.qr == tag then some l.result else first_match tag ls
