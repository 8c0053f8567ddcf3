-- ===== src/Lsu/Tests.antt =====
-- The load/store unit on small buffers.
use rv.Common.{
  ℕ, ◌≡◌, ◌+◌, ltb, if◌then◌else◌, arith, refl, Bool, true, false, none, some, List, [], ◌∷◌,
}
use rv.Lsu.{LsuBuf, LsuStatus, LoadBuf, StoreBuf, Lsu, lsu_create, lsu_sched_load, storing}
use rv.Lsu.Loads.{IsValid, busy_count, lsu_sched_load-IsValid}
use rv.Lsu.Stores.{stores, lsu_sched_store_overflow}

abbrev address : LsuBuf
address = record { value = 64; q = 3; r = false }

abbrev load_entry : Bool → LoadBuf
load_entry busy = record {
  addr = address;
  loaded = 0;
  f3 = 2;
  busy = busy;
  status = LsuStatus.wait;
}

abbrev unit : Lsu
unit = record {
  lb_size = 2;
  lb_nb = 1;
  lb = load_entry true ∷ load_entry false ∷ [];
  sb_size = 2;
  sb_nb = 0;
  sb_read_ptr = 0;
  sb_write_ptr = 0;
  sb = [];
}

unit-IsValid : IsValid unit
unit-IsValid = record { room = refl; counted = refl }

lsu_sched_load_example :
    (l' : Lsu) × (lsu_sched_load address 2 unit ≡ (ltb (busy_count unit.lb) 2, l'))
    × IsValid l'
    × (busy_count l'.lb
        ≡ (if ltb (busy_count unit.lb) 2 then busy_count unit.lb + 1 else busy_count unit.lb))
lsu_sched_load_example = lsu_sched_load-IsValid address 2 unit-IsValid

abbrev one_store : List StoreBuf
one_store = storing address address 2 ∷ []

abbrev two_calls : List (LsuBuf × LsuBuf × ℕ)
two_calls = (address, address, 2) ∷ (address, address, 2) ∷ []

-- Two loads and one store.
lsu_sched_store_overflow_example :
    stores two_calls (lsu_create 12 2 1 (some unit.lb) (some one_store) unit).1 ≡ none
lsu_sched_store_overflow_example =
    lsu_sched_store_overflow 12 2 1 unit.lb one_store unit two_calls refl (omega arith) refl
