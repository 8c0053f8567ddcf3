-- ===== src/Alu/Divide.antt =====
-- The divisions of `alu_exec`, sw/src/unit.c.
use rv.Common.{
  Bool-cases, ℕ, ◌+◌, ◌-◌, ◌*◌, ◌/◌, ◌%◌, ◌^◌, ◌≤◌, ◌<◌, ◌≡◌, sym, ap, ap₂, ◌∙◌, ◌≢◌, ◌⊎◌, inl, inr,
  Bool, true, false, some, arith, dec_lt,
}
use rv.Alu.Sign.{sg, sg-mul, sg-add, xor-cancel, signed32-eq-sg, signed32-neg32, signed32_small}
use rv.Int.{◌+ℤ◌, ◌*ℤ◌, signed32}
use rv.Word.{is_neg, abs32, neg32}
use rv.Alu.{quot32, rem32, alu_exec, f10_div, f10_rem}
use mathlib.Core.Bool.{xor}
use native.Mathlib.Nat.{le_refl}

-- The signs of a division put together again.
recombine : (s t : Bool) (x y q r : ℕ) → q * y + r ≡ x → sg (xor s t) q *ℤ sg t y +ℤ sg s r ≡ sg s x
recombine s t x y q r e =
    ap (λ k. k +ℤ sg s r) (sg-mul (xor s t) t q y ∙ ap (λ u. sg u (q * y)) (xor-cancel s t))
    ∙ sg-add s (q * y) r
    ∙ ap (sg s) e

div_mod_lem : (x y : ℕ) → y ≢ 0 → (x / y * y + x % y ≡ x) × (x % y < y) × (x / y ≤ x)
div_mod_lem x y h = (omega arith, omega arith, grind arith)

div_small : (x y : ℕ) → x ≤ 2 ^ 31 → y ≢ 0 → (x ≡ 2 ^ 31 → y ≢ 1) → x / y < 2 ^ 31
div_small x y h nz fits = elim (dec_lt 1 y) [
  | yes big ↦ (let (e, _, _) = div_mod_lem x y nz in grind arith)
  | no small ↦ (let one : y ≡ 1 = omega arith in rw one (grind arith))
]

abs32-ne : (b : ℕ) → b < 2 ^ 32 → b ≢ 0 → abs32 b ≢ 0
abs32-ne b h nz = ground arith

lt_half : {a : ℕ} → is_neg a ≡ false → a < 2 ^ 31
lt_half h = ground arith

le_half : (a : ℕ) {x : ℕ} → is_neg a ≡ true → x ≤ 2 ^ 32 - a → x ≤ 2 ^ 31
le_half a h l = ground arith

mod_le : (x y : ℕ) → x % y ≤ x
mod_le x y = omega arith

abs32-neg32 : (v : ℕ) → v ≤ 2 ^ 31 → abs32 (neg32 v) ≡ v
abs32-neg32 v h = ground arith

signed32-quot32 :
    (a b : ℕ)
    → a < 2 ^ 32
    → b < 2 ^ 32
    → b ≢ 0
    → (a ≡ 2 ^ 31 → b ≢ 2 ^ 32 - 1)
    → signed32 (quot32 a b) ≡ sg (xor (is_neg a) (is_neg b)) (abs32 a / abs32 b)
unfolding xor
signed32-quot32 a b ha hb nz fits = elim (Bool-cases (is_neg a)) [
  | inl na ↦ elim (Bool-cases (is_neg b)) [
    | inl nb ↦
        rw (na, nb)
          (signed32_small _ (
            div_small (2 ^ 32 - a) (2 ^ 32 - b) (ground arith) (omega arith)
              (λ e e'. fits (omega arith) (omega arith))))
    | inr nb ↦ rw (na, nb) (signed32-neg32 _ (le_half a na (div_mod_lem (2 ^ 32 - a) b nz).2))
  ]
  | inr na ↦ elim (Bool-cases (is_neg b)) [
    | inl nb ↦
        rw (na, nb)
          (signed32-neg32 _
            (omega (arith, (div_mod_lem a (2 ^ 32 - b) (omega arith)).2, lt_half na)))
    | inr nb ↦
        rw (na, nb) (signed32_small _ (div_small a b (ground arith) nz (λ e e'. ground arith)))
  ]
]

signed32-rem32 :
    (a b : ℕ)
    → a < 2 ^ 32
    → b < 2 ^ 32
    → b ≢ 0
    → signed32 (rem32 a b) ≡ sg (is_neg a) (abs32 a % abs32 b)
signed32-rem32 a b ha hb nz = elim (Bool-cases (is_neg a)) [
  | inl na ↦
      rw na
        (signed32-neg32 _ (omega (arith, mod_le (2 ^ 32 - a) (abs32 b), le_half a na (le_refl _))))
  | inr na ↦ rw na (signed32_small _ (omega (arith, mod_le a (abs32 b), lt_half na)))
]

rem32_facts :
    (a b : ℕ)
    → a < 2 ^ 32
    → (abs32 (rem32 a b) ≡ abs32 a % abs32 b) × ((rem32 a b ≡ 0) ⊎ (is_neg (rem32 a b) ≡ is_neg a))
rem32_facts a b ha = elim (Bool-cases (is_neg a)) [
  | inl na ↦
      (let h = mod_le (2 ^ 32 - a) (abs32 b) in
        rw na (abs32-neg32 _ (le_half a na h), of_neg ((2 ^ 32 - a) % abs32 b) (le_half a na h)))
  | inr na ↦
      (let h = mod_le a (abs32 b) in let l = lt_half na in rw na (ground arith, inr (ground arith)))
]
  where
    of_neg : (v : ℕ) → v ≤ 2 ^ 31 → (neg32 v ≡ 0) ⊎ (is_neg (neg32 v) ≡ true)
    of_neg v h = ground arith

-- DIV and REM of words do not fault except on a zero divisor and on INT32_MIN / -1. Elsewhere they
-- give quotient and remainder of the signed division: the parts add up, the remainder is smaller
-- than the divisor, and it is zero or has the sign of the dividend.
pub div_rem :
    (a b : ℕ)
    → a < 2 ^ 32
    → b < 2 ^ 32
    → b ≢ 0
    → (a ≡ 2 ^ 31 → b ≢ 2 ^ 32 - 1)
    → (q : ℕ) × (r : ℕ) × (alu_exec f10_div a b ≡ some q)
      × (alu_exec f10_rem a b ≡ some r)
      × (signed32 q *ℤ signed32 b +ℤ signed32 r ≡ signed32 a)
      × (abs32 r < abs32 b)
      × ((r ≡ 0) ⊎ (is_neg r ≡ is_neg a))
unfolding alu_exec
div_rem a b ha hb nz fits =
    (quot32 a b, rem32 a b, ground arith, ground arith, joins, smaller, (rem32_facts a b ha).1)
  where
    joins : signed32 (quot32 a b) *ℤ signed32 b +ℤ signed32 (rem32 a b) ≡ signed32 a
    joins =
        ap₂ ◌+ℤ◌ (ap₂ ◌*ℤ◌ (signed32-quot32 a b ha hb nz fits) (signed32-eq-sg b hb))
          (signed32-rem32 a b ha hb nz)
        ∙ recombine (is_neg a) (is_neg b) (abs32 a) (abs32 b) _ _
            (div_mod_lem (abs32 a) (abs32 b) (abs32-ne b hb nz)).0
        ∙ sym (signed32-eq-sg a ha)

    smaller : abs32 (rem32 a b) < abs32 b
    smaller =
        omega
          (arith, (rem32_facts a b ha).0, (div_mod_lem (abs32 a) (abs32 b) (abs32-ne b hb nz)).1)
