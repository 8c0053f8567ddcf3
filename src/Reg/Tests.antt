-- ===== src/Reg/Tests.antt =====
-- The register file on a concrete file of four registers.
use rv.Common.{ℕ, ◌≡◌, ◌==◌, ◌&&◌, if◌then◌else◌, refl, true, false, some, [], ◌∷◌}
use rv.Reg.{Reg, reg_write_data}
use rv.Reg.Invariant.{IsValid}
use rv.Reg.Renaming.{view, writable, ready, waiting, reg_write_data-view}

-- Register 2 waits for entry 9.
abbrev file : Reg
file = record {
  size = 4;
  x = 0 ∷ 10 ∷ 20 ∷ 30 ∷ [];
  s = 0 ∷ 0 ∷ 9 ∷ 0 ∷ [];
  d = false ∷ false ∷ true ∷ false ∷ [];
}

file-IsValid : IsValid file
file-IsValid = record {
  x_room = refl;
  s_room = refl;
  d_room = refl;
  zero_value = refl;
  zero_clean = refl;
}

reg_write_data-view_example :
    (r' : Reg) × (reg_write_data 2 5 file ≡ some (writable file 2, r'))
    × ((b : ℕ) → view r' b ≡ (if writable file 2 && (2 == b) then ready 5 else view file b))
reg_write_data-view_example = reg_write_data-view 2 5 file-IsValid

view-waiting : view file 2 ≡ waiting 9
view-waiting = refl
