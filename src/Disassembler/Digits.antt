-- ===== src/Disassembler/Digits.antt =====
-- Numbers and operands in the texts of sw/ELE749_projet1-develop/src/desassembly.c.
use rv.Common.{
  ltb, leb, ◌==◌, if◌then◌else◌, ℕ, zero, suc, ◌+◌, ◌/◌, ◌%◌, ◌^◌, Bool, true, false, not, List, [],
  ◌∷◌, ◌++◌, reverse,
}
use rv.Word.{is_neg, neg32}

-- The digits of a number, the lowest first, with fuel for the rounds of the loop.
unfoldable pub digits : ℕ → ℕ → List ℕ
digits zero n = []
digits (suc fuel) n = elim (n == 0) [ true ↦ [] | false ↦ (n % 10 + b'0') ∷ digits fuel (n / 10) ]

-- A `uint32_t` has at most ten digits.
abbrev pub magnitude : ℕ → List ℕ
magnitude n = elim (n == 0) [ true ↦ b'0' ∷ [] | false ↦ digits 10 n ]

-- `longToDec`; the length that it returns is that of the text. The magnitude of INT32_MIN is again
-- INT32_MIN, which is not positive.
unfoldable pub long_to_dec : ℕ → Bool → List ℕ
long_to_dec l is_unsigned =
    if is_unsigned
    then reverse (magnitude l)
    else if not (is_neg l)
    then reverse (magnitude l)
    else if l == 2 ^ 31
    then b'-' ∷ []
    else b'-' ∷ reverse (magnitude (neg32 l))

abbrev pub hex_upper : ℕ → ℕ
hex_upper c = if ltb 0x39 (c + 0x30) then c + 0x30 + 7 else c + 0x30

-- The loop of `hexStr` for the lowest `k` digits.
unfoldable pub hex_loop : ℕ → ℕ → List ℕ
hex_loop zero l = []
hex_loop (suc k) l = hex_upper (l / 16 ^ k % 16) ∷ hex_loop k l

unfoldable pub hex_str : ℕ → List ℕ
hex_str l = if leb l 0xFF then hex_loop 2 l else if leb l 0xFFFF then hex_loop 4 l else hex_loop 8 l

-- "BAD INSTRUCTION"
abbrev pub bad_instruction : List ℕ
bad_instruction =
    b'B' ∷ b'A' ∷ b'D' ∷ b' ' ∷ b'I' ∷ b'N' ∷ b'S' ∷ b'T' ∷ b'R' ∷ b'U' ∷ b'C' ∷ b'T' ∷ b'I' ∷ b'O'
    ∷ b'N' ∷ []

-- " x" and a register; the flag is that of `longToDec`.
abbrev pub register : ℕ → Bool → List ℕ
register reg is_unsigned = b' ' ∷ b'x' ∷ long_to_dec reg is_unsigned

-- " 0x" and a number.
abbrev pub hex_number : ℕ → List ℕ
hex_number n = b' ' ∷ b'0' ∷ b'x' ∷ hex_str n

-- "(x", a register and ")".
abbrev pub base_register : ℕ → Bool → List ℕ
base_register reg is_unsigned = b'(' ∷ b'x' ∷ (long_to_dec reg is_unsigned ++ (b')' ∷ []))
