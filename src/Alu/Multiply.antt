-- ===== src/Alu/Multiply.antt =====
-- The multiplications of `alu_exec`, sw/src/unit.c.
use rv.Common.{
  if◌then◌else◌, Bool-cases, ℕ, ◌+◌, ◌-◌, ◌*◌, ◌/◌, ◌%◌, ◌^◌, ◌≤◌, ◌<◌, ◌≡◌, refl, sym, ap, ap₂,
  ◌∙◌, inl, inr, Bool, true, false, some, arith,
}
use rv.Alu.Sign.{sg, sg-mul, abs32-le, signed32-eq-sg}
use rv.Int.{ℤ, pos, sub_ℕ, ◌+ℤ◌, ◌*ℤ◌, signed32}
use rv.Word.{u32, u64, is_neg, abs32, sext64, sra64_32}
use rv.Alu.{alu_exec, f10_mul, f10_mulh, f10_mulhsu, f10_mulhu}
use mathlib.Core.Bool.{xor}

mul_bound : (x y : ℕ) → x ≤ 2 ^ 31 → y ≤ 2 ^ 31 → x * y ≤ 2 ^ 62
mul_bound x y hx hy = grind arith

-- The 64-bit product, from the magnitudes.
abbrev wide : ℕ → ℕ → ℕ
wide a b = u64 (sext64 a * sext64 b)

abbrev product : ℕ → ℕ → ℕ
product a b = abs32 a * abs32 b

abbrev up : ℕ
up = 2 ^ 64 - 2 ^ 32

wide_neg_neg :
    (a b x y : ℕ)
    → a + x ≡ 2 ^ 32
    → b + y ≡ 2 ^ 32
    → x * y ≤ 2 ^ 62
    → u64 ((a + up) * (b + up)) ≡ x * y
wide_neg_neg a b x y p q h = omega (arith, ap (λ (t : ℕ). t * b) p, ap (λ (t : ℕ). x * t) q)

wide_neg_pos :
    (a b x : ℕ) → a + x ≡ 2 ^ 32 → x * b ≤ 2 ^ 62 → u64 ((a + up) * b) ≡ (2 ^ 64 - x * b) % 2 ^ 64
wide_neg_pos a b x p h = omega (arith, ap (λ (t : ℕ). t * b) p)

wide_pos_neg :
    (a b y : ℕ) → b + y ≡ 2 ^ 32 → a * y ≤ 2 ^ 62 → u64 (a * (b + up)) ≡ (2 ^ 64 - a * y) % 2 ^ 64
wide_pos_neg a b y q h = omega (arith, ap (λ (t : ℕ). a * t) q)

wide_lem :
    (a b : ℕ)
    → a < 2 ^ 32
    → b < 2 ^ 32
    → wide a b
      ≡ (if xor (is_neg a) (is_neg b) then (2 ^ 64 - product a b) % 2 ^ 64 else product a b)
unfolding xor
wide_lem a b ha hb =
    let h = mul_bound (abs32 a) (abs32 b) (abs32-le a ha) (abs32-le b hb) in
    elim (Bool-cases (is_neg a)) [
      | inl na ↦ elim (Bool-cases (is_neg b)) [
        | inl nb ↦
            rw (na, nb)
              (wide_neg_neg a b (2 ^ 32 - a) (2 ^ 32 - b) (omega arith) (omega arith)
                (rw (na, nb) at h))
        | inr nb ↦ rw (na, nb) (wide_neg_pos a b (2 ^ 32 - a) (omega arith) (rw (na, nb) at h))
      ]
      | inr na ↦ elim (Bool-cases (is_neg b)) [
        | inl nb ↦ rw (na, nb) (wide_pos_neg a b (2 ^ 32 - b) (omega arith) (rw (na, nb) at h))
        | inr nb ↦ rw (na, nb) (let h' : a * b ≤ 2 ^ 62 = rw (na, nb) at h in omega arith)
      ]
    ]

low_lem : (a b : ℕ) → u32 (a * b) ≡ wide a b % 2 ^ 32
low_lem a b = elim (Bool-cases (is_neg a)) [
  | inl na ↦ elim (Bool-cases (is_neg b)) [
    | inl nb ↦ rw (na, nb) (omega arith)
    | inr nb ↦ rw (na, nb) (omega arith)
  ]
  | inr na ↦ elim (Bool-cases (is_neg b)) [
    | inl nb ↦ rw (na, nb) (omega arith)
    | inr nb ↦ rw (na, nb) (omega arith)
  ]
]

-- High and low word put together again.
hi_lo_pos :
    (p : ℕ) → p ≤ 2 ^ 62 → signed32 (u32 (sra64_32 p)) *ℤ pos (2 ^ 32) +ℤ pos (p % 2 ^ 32) ≡ pos p
unfolding ◌+ℤ◌ ◌*ℤ◌
hi_lo_pos p h = ground arith

hi_lo_neg :
    (p : ℕ)
    → p ≤ 2 ^ 62
    → let w = (2 ^ 64 - p) % 2 ^ 64 in
      signed32 (u32 (sra64_32 w)) *ℤ pos (2 ^ 32) +ℤ pos (w % 2 ^ 32) ≡ sub_ℕ 0 p
unfolding ◌+ℤ◌ ◌*ℤ◌
hi_lo_neg p h = ground arith

abbrev joined : ℕ → ℕ → ℤ
joined w lo = signed32 (u32 (sra64_32 w)) *ℤ pos (2 ^ 32) +ℤ pos lo

hi_lo :
    (s : Bool) (p : ℕ)
    → p ≤ 2 ^ 62
    → let w = if s then (2 ^ 64 - p) % 2 ^ 64 else p in joined w (w % 2 ^ 32) ≡ sg s p
hi_lo true p h = hi_lo_neg p h
hi_lo false p h = hi_lo_pos p h

-- MUL and MULH of words do not fault, and give the low and the high word of the signed product.
pub mul_mulh :
    (a b : ℕ)
    → a < 2 ^ 32
    → b < 2 ^ 32
    → (hi : ℕ) × (lo : ℕ) × (alu_exec f10_mulh a b ≡ some hi)
      × (alu_exec f10_mul a b ≡ some lo)
      × (signed32 hi *ℤ pos (2 ^ 32) +ℤ pos lo ≡ signed32 a *ℤ signed32 b)
unfolding alu_exec
mul_mulh a b ha hb = (_, _, refl, refl, joins)
  where
    joins : joined (wide a b) (u32 (a * b)) ≡ signed32 a *ℤ signed32 b
    joins =
        ap (joined (wide a b)) (low_lem a b)
        ∙ ap (λ w. joined w (w % 2 ^ 32)) (wide_lem a b ha hb)
        ∙ hi_lo (xor (is_neg a) (is_neg b)) (product a b)
            (mul_bound (abs32 a) (abs32 b) (abs32-le a ha) (abs32-le b hb))
        ∙ sym (sg-mul (is_neg a) (is_neg b) (abs32 a) (abs32 b))
        ∙ sym (ap₂ ◌*ℤ◌ (signed32-eq-sg a ha) (signed32-eq-sg b hb))

high_lem :
    (a b : ℕ)
    → a < 2 ^ 32
    → b < 2 ^ 32
    → u32 (wide a b / 2 ^ 32)
      ≡ u32 (a * b / 2 ^ 32 + 2 ^ 33 - (if is_neg a then b else 0) - (if is_neg b then a else 0))
high_lem a b ha hb = elim (Bool-cases (is_neg a)) [
  | inl na ↦ elim (Bool-cases (is_neg b)) [
    | inl nb ↦ rw (na, nb) (omega arith)
    | inr nb ↦ rw (na, nb) (omega arith)
  ]
  | inr na ↦ elim (Bool-cases (is_neg b)) [
    | inl nb ↦ rw (na, nb) (omega arith)
    | inr nb ↦ rw (na, nb) (omega arith)
  ]
]

sra64_lem : (w : ℕ) → w < 2 ^ 64 → u32 (sra64_32 w) ≡ u32 (w / 2 ^ 32)
sra64_lem w h = ground arith

-- MULHU of words gives the high word of the unsigned product less each operand whose partner has
-- its sign bit set, modulo 2 ^ 32; MULHSU and MULH give the same.
pub mulhu_lem :
    (a b : ℕ)
    → a < 2 ^ 32
    → b < 2 ^ 32
    → (alu_exec f10_mulhu a b
        ≡ some (
            u32 (
              a * b / 2 ^ 32 + 2 ^ 33 - (if is_neg a then b else 0) - (if is_neg b then a else 0))))
      × (alu_exec f10_mulhsu a b ≡ alu_exec f10_mulhu a b)
      × (alu_exec f10_mulh a b ≡ alu_exec f10_mulhu a b)
unfolding alu_exec
mulhu_lem a b ha hb =
    (ap some (high_lem a b ha hb), refl, ap some (sra64_lem (wide a b) (omega arith)))
