-- ===== src/Common/Ring.antt =====
-- Steps round an index range.
use Prim.Native.Nat.{ℕ, ◌+◌, ◌%◌, ◌<◌}
use mathlib.Core.Path.{◌≡◌}
use mathlib.Core.Logic.{◌⊎◌}
use native.Mathlib.Nat.{mod-eq_of_lt}
use native.Mathlib.Decide.{dec_lt}
use native.Mathlib.Omega.{arith}
use mathlib.Core.Logic.{inl, inr}

-- The index after `p` is `p + 1`, or 0 behind the last one.
pub next_cases :
    (p n : ℕ) → p < n → ((p + 1) % n ≡ p + 1) × (p + 1 < n) ⊎ ((p + 1) % n ≡ 0) × (p + 1 ≡ n)
next_cases p n h = elim (dec_lt (p + 1) n) [
  | yes below ↦ inl (mod-eq_of_lt below, below)
  | no last ↦ inr (grind arith, omega arith)
]
