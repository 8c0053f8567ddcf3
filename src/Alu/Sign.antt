-- ===== src/Alu/Sign.antt =====
-- Signed words as a sign and a magnitude.
use rv.Common.{if◌then◌else◌, ℕ, ◌+◌, ◌*◌, ◌^◌, ◌≤◌, ◌<◌, ◌≡◌, refl, Bool, true, false, arith}
use rv.Int.{ℤ, pos, sub_ℕ, ◌+ℤ◌, ◌*ℤ◌, signed32}
use rv.Word.{is_neg, abs32, neg32}
use mathlib.Core.Bool.{xor}

abbrev pub sg : Bool → ℕ → ℤ
sg s v = if s then sub_ℕ 0 v else pos v

pub abs32-le : (w : ℕ) → w < 2 ^ 32 → abs32 w ≤ 2 ^ 31
abs32-le w h = ground arith

pub signed32-eq-sg : (w : ℕ) → w < 2 ^ 32 → signed32 w ≡ sg (is_neg w) (abs32 w)
signed32-eq-sg w h = ground arith

pub signed32-neg32 : (v : ℕ) → v ≤ 2 ^ 31 → signed32 (neg32 v) ≡ sg true v
signed32-neg32 v h = ground arith

pub signed32_small : (v : ℕ) → v < 2 ^ 31 → signed32 v ≡ sg false v
signed32_small v h = ground arith

pub sg-mul : (s t : Bool) (x y : ℕ) → sg s x *ℤ sg t y ≡ sg (xor s t) (x * y)
unfolding ◌*ℤ◌ xor
sg-mul true true x y = ground arith
sg-mul true false x y = ground arith
sg-mul false true x y = ground arith
sg-mul false false x y = ground arith

pub sg-add : (s : Bool) (x y : ℕ) → sg s x +ℤ sg s y ≡ sg s (x + y)
unfolding ◌+ℤ◌
sg-add true x y = ground arith
sg-add false x y = ground arith

pub xor-cancel : (s t : Bool) → xor (xor s t) t ≡ s
unfolding xor
xor-cancel true true = refl
xor-cancel true false = refl
xor-cancel false true = refl
xor-cancel false false = refl
