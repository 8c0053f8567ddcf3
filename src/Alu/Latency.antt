-- ===== src/Alu/Latency.antt =====
-- `alu_get_cycle` beside `alu_exec`, sw/src/unit.c.
use rv.Common.{◌==◌, ℕ, ◌<◌, ◌≡◌, ◌≢◌, false, some, arith}
use rv.Alu.{alu_exec, alu_get_cycle}

unknown_cases : (f10 : ℕ) → alu_get_cycle f10 ≡ 0 → (15 < f10) × (f10 ≢ 0x200) × (f10 ≢ 0x205)
unfolding alu_get_cycle
unknown_cases f10 h = ground arith

ne→== : (a b : ℕ) → a ≢ b → (a == b) ≡ false
ne→== a b h = ground arith

unknown_exec : (f10 a b : ℕ) → 15 < f10 → f10 ≢ 0x200 → f10 ≢ 0x205 → alu_exec f10 a b ≡ some 0
unfolding alu_exec
unknown_exec f10 a b h p q = rw (
  ne→== f10 0 (omega arith),
  ne→== f10 1 (omega arith),
  ne→== f10 2 (omega arith),
  ne→== f10 3 (omega arith),
  ne→== f10 4 (omega arith),
  ne→== f10 5 (omega arith),
  ne→== f10 6 (omega arith),
  ne→== f10 7 (omega arith),
  ne→== f10 512 (omega arith),
  ne→== f10 517 (omega arith),
  ne→== f10 8 (omega arith),
  ne→== f10 9 (omega arith),
  ne→== f10 10 (omega arith),
  ne→== f10 11 (omega arith),
  ne→== f10 12 (omega arith),
  ne→== f10 13 (omega arith),
  ne→== f10 14 (omega arith),
  ne→== f10 15 (omega arith),
)

-- An operation without a latency is one that `alu_exec` does not know: it gives 0.
pub unknown_op : (f10 a b : ℕ) → alu_get_cycle f10 ≡ 0 → alu_exec f10 a b ≡ some 0
unknown_op f10 a b h = let (big, ne, ne') = unknown_cases f10 h in unknown_exec f10 a b big ne ne'
