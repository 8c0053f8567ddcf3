-- ===== src/Alu/Compare.antt =====
-- The comparisons of `alu_exec`, sw/src/unit.c.
use rv.Common.{ltb, ℕ, ◌^◌, ◌<◌, ◌≡◌, refl, some, arith}
use rv.Int.{ltb_ℤ, signed32}
use rv.Alu.{alu_exec, f10_slt, f10_sltu, from_bool}

-- SLT compares words as signed numbers and SLTU as unsigned ones; the result is 1 or 0.
pub slt_lem :
    (a b : ℕ)
    → a < 2 ^ 32
    → b < 2 ^ 32
    → (alu_exec f10_slt a b ≡ some (from_bool (ltb_ℤ (signed32 a) (signed32 b))))
      × (alu_exec f10_sltu a b ≡ some (from_bool (ltb a b)))
unfolding alu_exec
slt_lem a b ha hb = (ground arith, refl)
