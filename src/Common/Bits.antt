-- ===== src/Common/Bits.antt =====
-- The disjunction of binary numbers, digit by digit and in two blocks of digits.
use Prim.Native.Nat.{
  ℕ, zero, suc, ◌+◌, ◌*◌, ◌/◌, ◌%◌, ◌≤◌, ◌<◌, max, bit_or, digits, bit_or-bitwise,
}
use mathlib.Core.Path.{◌≡◌, refl, ap, ap₂}
use native.Mathlib.Omega.{arith}

-- The disjunction, by at most `n` digits of the first number.
abbrev or_to : ℕ → ℕ → ℕ → ℕ
or_to n a b = digits (λ c. c) max n a b

or_to-zero : (n b : ℕ) → or_to n 0 b ≡ b
or_to-zero zero b = refl
or_to-zero (suc n) b = refl

-- Any two counts serve that are not below the first number.
or_to_any : (n m a b : ℕ) → a ≤ n → a ≤ m → or_to n a b ≡ or_to m a b
or_to_any n m zero b h k = omega (arith, or_to-zero n b, or_to-zero m b)
or_to_any zero m (suc a) b h k = absurd (omega arith)
or_to_any (suc n) zero (suc a) b h k = absurd (omega arith)
or_to_any (suc n) (suc m) (suc a) b h k =
    omega (arith, or_to_any n m (suc a / 2) (b / 2) (omega arith) (omega arith))

-- The last digit on its own.
pub bit_or_last : (a b : ℕ) → bit_or a b ≡ bit_or (a / 2) (b / 2) * 2 + max (a % 2) (b % 2)
bit_or_last zero b = omega (arith, bit_or-bitwise 0 b, bit_or-bitwise 0 (b / 2))
bit_or_last (suc a) b = omega (
  arith,
  bit_or-bitwise (suc a) b,
  bit_or-bitwise (suc a / 2) (b / 2),
  or_to_any a (suc a / 2) (suc a / 2) (b / 2) (omega arith) (omega arith),
)

pub zero-bit_or : (b : ℕ) → bit_or 0 b ≡ b
zero-bit_or b = bit_or-bitwise 0 b

bit_or-zero_to : (n a : ℕ) → a ≤ n → bit_or a 0 ≡ a
bit_or-zero_to n zero h = zero-bit_or 0
bit_or-zero_to zero (suc a) h = absurd (omega arith)
bit_or-zero_to (suc n) (suc a) h =
    omega (arith, bit_or_last (suc a) 0, bit_or-zero_to n (suc a / 2) (omega arith))

pub bit_or-zero : (a : ℕ) → bit_or a 0 ≡ a
bit_or-zero a = bit_or-zero_to a a (omega arith)

-- `a` with `k` digits behind it.
abbrev pub up : ℕ → ℕ → ℕ
up zero a = a
up (suc k) a = up k a * 2

up-zero : (k : ℕ) → up k 0 ≡ 0
up-zero zero = refl
up-zero (suc k) = omega (arith, up-zero k)

up_half : (k a r : ℕ) → (up (suc k) a + r) / 2 ≡ up k a + r / 2
up_half k a r = omega arith

-- Blocks of `k` digits do not meet.
pub bit_or-up :
    (k a b r s : ℕ)
    → r < up k 1
    → s < up k 1
    → bit_or (up k a + r) (up k b + s) ≡ up k (bit_or a b) + bit_or r s
bit_or-up zero a b zero zero h g =
    let same : bit_or (a + 0) (b + 0) ≡ bit_or a b = ap₂ bit_or (omega arith) (omega arith) in
    omega (arith, same)
bit_or-up zero a b (suc r) s h g = absurd (omega arith)
bit_or-up zero a b zero (suc s) h g = absurd (omega arith)
bit_or-up (suc k) a b r s h g = omega (
  arith,
  bit_or_last (up (suc k) a + r) (up (suc k) b + s),
  bit_or_last r s,
  ap₂ bit_or (up_half k a r) (up_half k b s),
  bit_or-up k a b (r / 2) (s / 2) (omega arith) (omega arith),
)

bit_or-self_to : (n a : ℕ) → a ≤ n → bit_or a a ≡ a
bit_or-self_to n zero h = zero-bit_or 0
bit_or-self_to zero (suc a) h = absurd (omega arith)
bit_or-self_to (suc n) (suc a) h =
    omega (arith, bit_or_last (suc a) (suc a), bit_or-self_to n (suc a / 2) (omega arith))

-- A block put behind a number.
pub bit_or-join : (k hi x lo : ℕ) → x ≡ up k hi → lo < up k 1 → bit_or x lo ≡ x + lo
bit_or-join k hi x lo e h =
    let same : bit_or x lo ≡ bit_or (up k hi + 0) (up k 0 + lo) =
      ap₂ bit_or (omega arith) (omega (arith, up-zero k)) in
    let blocks = bit_or-up k hi 0 0 lo (omega arith) h in
    let tops = ap (up k) (bit_or-zero hi) in omega (arith, same, blocks, tops, zero-bit_or lo)

-- Bits that are set already.
pub bit_or-set : (k b r x m : ℕ) → x ≡ up k b + r → m ≡ up k b → r < up k 1 → bit_or x m ≡ x
bit_or-set k b r x m e f h =
    let same : bit_or x m ≡ bit_or (up k b + r) (up k b + 0) = ap₂ bit_or e (omega arith) in
    let blocks = bit_or-up k b b r 0 h (omega arith) in
    let tops = ap (up k) (bit_or-self_to b b (omega arith)) in
    omega (arith, same, blocks, tops, bit_or-zero r)

-- Bits above a number.
pub bit_or-above : (k b r m : ℕ) → m ≡ up k b → r < up k 1 → bit_or r m ≡ r + m
bit_or-above k b r m e h =
    let same : bit_or r m ≡ bit_or (up k 0 + r) (up k b + 0) =
      ap₂ bit_or (omega (arith, up-zero k)) (omega (arith, e)) in
    let blocks = bit_or-up k 0 b r 0 h (omega arith) in
    let tops = ap (up k) (zero-bit_or b) in omega (arith, same, blocks, tops, bit_or-zero r)
