-- ===== src/Alu/Tests.antt =====
-- The ALU on concrete operands.
use rv.Common.{ℕ, ◌≡◌, ◌<◌, ◌⊎◌, arith, refl, some, ◌^◌}
use rv.Int.{◌+ℤ◌, ◌*ℤ◌, signed32, pos}
use rv.Word.{is_neg, abs32}
use rv.Alu.Multiply.{mul_mulh}
use rv.Alu.{f10_mul, f10_mulh, f10_add, f10_div, f10_rem, f10_sub, alu_exec}
use rv.Alu.Divide.{div_rem}

-- -7
abbrev minus_seven : ℕ
minus_seven = 4294967289

add_wraps : alu_exec f10_add minus_seven 9 ≡ some 2
unfolding alu_exec
add_wraps = refl

sub_wraps : alu_exec f10_sub 2 9 ≡ some minus_seven
unfolding alu_exec
sub_wraps = refl

div_rem_example :
    (q : ℕ) × (r : ℕ) × (alu_exec f10_div minus_seven 3 ≡ some q)
    × (alu_exec f10_rem minus_seven 3 ≡ some r)
    × (signed32 q *ℤ signed32 3 +ℤ signed32 r ≡ signed32 minus_seven)
    × (abs32 r < abs32 3)
    × ((r ≡ 0) ⊎ (is_neg r ≡ is_neg minus_seven))
div_rem_example =
    div_rem minus_seven 3 (omega arith) (omega arith) (λ q. omega arith) (λ q. omega arith)

mul_mulh_example :
    (hi : ℕ) × (lo : ℕ) × (alu_exec f10_mulh minus_seven 9 ≡ some hi)
    × (alu_exec f10_mul minus_seven 9 ≡ some lo)
    × (signed32 hi *ℤ pos (2 ^ 32) +ℤ pos lo ≡ signed32 minus_seven *ℤ signed32 9)
mul_mulh_example = mul_mulh minus_seven 9 (omega arith) (omega arith)
