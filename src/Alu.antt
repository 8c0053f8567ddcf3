-- ===== src/Alu.antt =====
-- The arithmetic unit, sw/src/unit.c and unit.h. Operands and results are `int32_t` bit patterns.
-- A result `none` is undefined behaviour: a shift by 32 or more (or by a negative number), a
-- division by zero, or INT32_MIN / -1. Signed sums, differences, products and left shifts wrap, as
-- compilers make them do on two's complement machines.
mod Sign
pub mod Shift
pub mod Multiply
pub mod Divide
pub mod Compare
pub mod Latency
mod Tests
use rv.Common.{
  ◌>>◌, ◌>>=◌, ltb, leb, ◌==◌, if◌then◌else◌, require, ℕ, ◌+◌, ◌-◌, ◌*◌, ◌/◌, ◌%◌, ◌^◌, bit_and,
  bit_or, bit_xor, Bool, true, false, not, ◌&&◌, ◌||◌, Option, some,
}
use rv.Word.{u32, u64, is_neg, neg32, abs32, sext64, sra32, sra64_32}

abbrev pub f10_add : ℕ
f10_add = 0x000

abbrev pub f10_sll : ℕ
f10_sll = 0x001

abbrev pub f10_slt : ℕ
f10_slt = 0x002

abbrev pub f10_sltu : ℕ
f10_sltu = 0x003

abbrev pub f10_xor : ℕ
f10_xor = 0x004

abbrev pub f10_srl : ℕ
f10_srl = 0x005

abbrev pub f10_or : ℕ
f10_or = 0x006

abbrev pub f10_and : ℕ
f10_and = 0x007

abbrev pub f10_sub : ℕ
f10_sub = 0x200

abbrev pub f10_sra : ℕ
f10_sra = 0x205

abbrev pub f10_mul : ℕ
f10_mul = 0x008

abbrev pub f10_mulh : ℕ
f10_mulh = 0x009

abbrev pub f10_mulhsu : ℕ
f10_mulhsu = 0x00A

abbrev pub f10_mulhu : ℕ
f10_mulhu = 0x00B

abbrev pub f10_div : ℕ
f10_div = 0x00C

abbrev pub f10_divu : ℕ
f10_divu = 0x00D

abbrev pub f10_rem : ℕ
f10_rem = 0x00E

abbrev pub f10_remu : ℕ
f10_remu = 0x00F

abbrev pub mul_latency : ℕ
mul_latency = 4

abbrev pub div_latency : ℕ
div_latency = 19

-- `a < b` of `int32_t`: flipping the sign bit turns the order into that of the patterns.
abbrev pub slt : ℕ → ℕ → Bool
slt a b =
    if is_neg a then (if is_neg b then ltb a b else true) else (if is_neg b then false else ltb a b)

abbrev pub from_bool : Bool → ℕ
from_bool b = if b then 1 else 0

-- `a / b` and `a % b` of `int32_t`: the quotient is cut towards zero.
abbrev pub quot32 : ℕ → ℕ → ℕ
quot32 a b =
    if is_neg a
    then (if is_neg b then abs32 a / abs32 b else neg32 (abs32 a / abs32 b))
    else (if is_neg b then neg32 (abs32 a / abs32 b) else abs32 a / abs32 b)

abbrev pub rem32 : ℕ → ℕ → ℕ
rem32 a b = if is_neg a then neg32 (abs32 a % abs32 b) else abs32 a % abs32 b

-- Where C defines `a / b` and `a % b` of `int32_t`.
abbrev pub div_defined : ℕ → ℕ → Bool
div_defined a b = not (b == 0) && not (a == 2 ^ 31 && b == 2 ^ 32 - 1)

unfoldable pub alu_exec : ℕ → ℕ → ℕ → Option ℕ
alu_exec f10 a b =
    if f10 == f10_add
    then some (u32 (a + b))
    else if f10 == f10_sll
    then require (ltb b 32) >> some (u32 (a * 2 ^ b))
    else if f10 == f10_slt
    then some (from_bool (slt a b))
    else if f10 == f10_sltu
    then some (from_bool (ltb a b))
    else if f10 == f10_xor
    then some (bit_xor a b)
    else if f10 == f10_srl
    then require (ltb b 32) >> some (a / 2 ^ b)
    else if f10 == f10_or
    then some (bit_or a b)
    else if f10 == f10_and
    then some (bit_and a b)
    else if f10 == f10_sub
    then some (u32 (a + 2 ^ 32 - b))
    else if f10 == f10_sra
    then require (ltb b 32) >> some (sra32 a b)
    else if f10 == f10_mul
    then some (u32 (a * b))
    else if f10 == f10_mulh
    then some (u32 (sra64_32 (u64 (sext64 a * sext64 b))))
    else if f10 == f10_mulhsu
    then some (u32 (u64 (sext64 a * sext64 b) / 2 ^ 32))
    else if f10 == f10_mulhu
    then some (u32 (u64 (sext64 a * sext64 b) / 2 ^ 32))
    else if f10 == f10_div
    then require (div_defined a b) >> some (quot32 a b)
    else if f10 == f10_divu
    then require (not (b == 0)) >> some (a / b)
    else if f10 == f10_rem
    then require (div_defined a b) >> some (rem32 a b)
    else if f10 == f10_remu
    then require (not (b == 0)) >> some (a % b)
    else some 0

-- The operations that `alu_get_cycle` knows, by its three groups of cases.
abbrev pub is_int : ℕ → Bool
is_int f10 = leb f10 f10_and || f10 == f10_sub || f10 == f10_sra

abbrev pub is_mul : ℕ → Bool
is_mul f10 = leb f10_mul f10 && leb f10 f10_mulhu

abbrev pub is_div : ℕ → Bool
is_div f10 = leb f10_div f10 && leb f10 f10_remu

unfoldable pub alu_get_cycle : ℕ → ℕ
alu_get_cycle f10 =
    if is_int f10 then 1 else if is_mul f10 then mul_latency else if is_div f10 then 19 else 0
