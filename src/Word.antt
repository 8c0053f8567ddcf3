-- ===== src/Word.antt =====
-- Machine words of the C code as native numbers: `uint32_t` and `int32_t` are the bit pattern,
-- below 2 ^ 32.
use rv.Common.{ℕ, ◌+◌, ◌-◌, ◌*◌, ◌/◌, ◌%◌, ◌^◌, Bool, ltb, if◌then◌else◌}

abbrev pub u8 : ℕ → ℕ
u8 n = n % 2 ^ 8

abbrev pub u32 : ℕ → ℕ
u32 n = n % 2 ^ 32

abbrev pub u64 : ℕ → ℕ
u64 n = n % 2 ^ 64

-- The sign bit of an `int32_t`.
abbrev pub is_neg : ℕ → Bool
is_neg w = ltb (2 ^ 31 - 1) w

-- `-w`
abbrev pub neg32 : ℕ → ℕ
neg32 w = u32 (2 ^ 32 - w)

-- The magnitude of an `int32_t`.
abbrev pub abs32 : ℕ → ℕ
abs32 w = if is_neg w then 2 ^ 32 - w else w

-- The conversion of an `int32_t` to 64 bits, signed or not: the sign bit is copied upwards.
abbrev pub sext64 : ℕ → ℕ
sext64 w = if is_neg w then w + (2 ^ 64 - 2 ^ 32) else w

-- `w >> k` of an `int32_t`: copies of the sign bit come in from the left.
abbrev pub sra32 : ℕ → ℕ → ℕ
sra32 w k = if is_neg w then u32 ((w + 2 ^ 32 * (2 ^ k - 1)) / 2 ^ k) else w / 2 ^ k

-- `w >> 32` of an `int64_t`.
abbrev pub sra64_32 : ℕ → ℕ
sra64_32 w = if ltb w (2 ^ 63) then w / 2 ^ 32 else u64 ((w + 2 ^ 64 * (2 ^ 32 - 1)) / 2 ^ 32)
