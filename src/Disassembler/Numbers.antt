-- ===== src/Disassembler/Numbers.antt =====
-- The numbers that sw/ELE749_projet1-develop/src/desassembly.c writes, read back.
use rv.Common.{
  All, ◌≤◌, subst, if◌then◌else◌, ◌≢◌, ◌-◌, true, false, leb, ◌==◌, Bool-cases, ℕ, zero, suc, ◌+◌,
  ◌*◌, ◌/◌, ◌%◌, ◌^◌, ◌<◌, ◌≡◌, refl, sym, ap, ◌∙◌, inl, inr, some, List, [], ◌∷◌, ◌++◌, reverse,
  arith, elim-true, elim-false, Bool,
}
use rv.Word.{abs32, is_neg, neg32}
use rv.Debugger.Text.{hex_digit, hex_digits}
use rv.Debugger.Hex.{hex_digits_step, top_digit, drop_zero}
use rv.Disassembler.Digits.{long_to_dec, magnitude, digits, hex_upper, hex_loop, hex_str}
use native.Mathlib.Nat.{one-le-pow, pow-succ'}
use mathlib.Core.List.{reverse-cons}

-- The number that decimal digits stand for, the highest first.
unfoldable pub read_dec : List ℕ → ℕ → ℕ
read_dec [] n = n
read_dec (c ∷ cs) n = read_dec cs (n * 10 + (c - b'0'))

-- One of the characters from 0 to 9.
abbrev pub IsDigit : ℕ → Type 0
IsDigit c = (b'0' ≤ c) × (c ≤ b'9')

All-snoc : (s : List ℕ) (c : ℕ) → All IsDigit s → IsDigit c → All IsDigit (s ++ (c ∷ []))
All-snoc [] c h d = (d, tt)
All-snoc (x ∷ xs) c h d = (h.0, All-snoc xs c h.1 d)

digits-AreDigits : (fuel n : ℕ) → All IsDigit (reverse (digits fuel n))
unfolding digits
digits-AreDigits zero n = tt
digits-AreDigits (suc fuel) n = elim (Bool-cases (n == 0)) [
  | inl e ↦ subst (λ (s : List ℕ). All IsDigit (reverse s)) (sym (elim-true _ _ e)) tt
  | inr e ↦
      subst (λ (s : List ℕ). All IsDigit (reverse s)) (sym (elim-false _ _ e))
        (subst (All IsDigit) (sym (reverse-cons (n % 10 + b'0') (digits fuel (n / 10)))) (
          All-snoc (reverse (digits fuel (n / 10))) (n % 10 + b'0') (digits-AreDigits fuel (n / 10))
            (omega arith, omega arith)))
]

magnitude-AreDigits : (n : ℕ) → All IsDigit (reverse (magnitude n))
magnitude-AreDigits n = elim (Bool-cases (n == 0)) [
  | inl e ↦
      subst (λ (s : List ℕ). All IsDigit (reverse s)) (sym (elim-true _ _ e))
        ((omega arith, omega arith), tt)
  | inr e ↦
      subst (λ (s : List ℕ). All IsDigit (reverse s)) (sym (elim-false _ _ e))
        (digits-AreDigits 10 n)
]

read_dec-append :
    (s : List ℕ) (c n : ℕ) → read_dec (s ++ (c ∷ [])) n ≡ read_dec s n * 10 + (c - b'0')
unfolding read_dec
read_dec-append [] c n = refl
read_dec-append (d ∷ ds) c n = read_dec-append ds c (n * 10 + (d - b'0'))

shorter : (fuel n : ℕ) → n < 10 ^ suc fuel → n / 10 < 10 ^ fuel
shorter fuel n h = grind arith

read_dec-digits : (fuel n : ℕ) → n < 10 ^ fuel → read_dec (reverse (digits fuel n)) 0 ≡ n
unfolding digits read_dec
read_dec-digits zero n h = omega arith
read_dec-digits (suc fuel) n h = elim (Bool-cases (n == 0)) [
  | inl e ↦ ap (λ (s : List ℕ). read_dec (reverse s) 0) (elim-true _ _ e) ∙ ground (arith, e)
  | inr e ↦
      ap (λ (s : List ℕ). read_dec (reverse s) 0) (elim-false _ _ e)
      ∙ ap (λ (s : List ℕ). read_dec s 0) (reverse-cons (n % 10 + b'0') (digits fuel (n / 10)))
      ∙ read_dec-append (reverse (digits fuel (n / 10))) (n % 10 + b'0') 0
      ∙ ap (λ v. v * 10 + (n % 10 + b'0' - b'0')) (read_dec-digits fuel (n / 10) (shorter fuel n h))
      ∙ omega arith
]

-- `hexStr` writes a number that its digits stand for.
hex_digit-hex_upper : (d : ℕ) → d < 16 → hex_digit (hex_upper d) ≡ some d
hex_digit-hex_upper d h = ground arith

hex_digits-hex_loop : (k n acc : ℕ) → hex_digits (hex_loop k n) acc ≡ acc * 16 ^ k + n % 16 ^ k
unfolding hex_digits hex_loop
hex_digits-hex_loop zero n acc = omega arith
hex_digits-hex_loop (suc k) n acc =
    let d = n / 16 ^ k % 16 in
    hex_digits_step (hex_upper d) d acc (hex_loop k n) (hex_digit-hex_upper d (omega arith))
    ∙ hex_digits-hex_loop k n (acc * 16 + d)
    ∙ top_digit n acc (16 ^ k) (one-le-pow k 16 (omega arith))
    ∙ ap (λ v. acc * v + n % v) (sym (pow-succ' 16 k))

-- The digits that `hexStr` writes of a 32-bit number stand for this number.
pub hex_digits-hex_str : (l : ℕ) → l < 2 ^ 32 → hex_digits (hex_str l) 0 ≡ l
unfolding hex_str
hex_digits-hex_str l h = elim (Bool-cases (leb l 0xFF)) [
  | inl e ↦ rw e (hex_digits-hex_loop 2 l 0 ∙ drop_zero (16 ^ 2) l (ground (arith, e)))
  | inr e ↦ elim (Bool-cases (leb l 0xFFFF)) [
    | inl f ↦ rw (e, f) (hex_digits-hex_loop 4 l 0 ∙ drop_zero (16 ^ 4) l (ground (arith, f)))
    | inr f ↦ rw (e, f) (hex_digits-hex_loop 8 l 0 ∙ drop_zero (16 ^ 8) l (omega arith))
  ]
]

read_dec-magnitude : (n : ℕ) → n < 2 ^ 32 → read_dec (reverse (magnitude n)) 0 ≡ n
unfolding read_dec
read_dec-magnitude n h = elim (Bool-cases (n == 0)) [
  | inl e ↦ ap (λ (s : List ℕ). read_dec (reverse s) 0) (elim-true _ _ e) ∙ ground (arith, e)
  | inr e ↦
      ap (λ (s : List ℕ). read_dec (reverse s) 0) (elim-false _ _ e)
      ∙ read_dec-digits 10 n (omega arith)
]

sign_cases :
    (w : ℕ) (t : Bool)
    → w < 2 ^ 32
    → is_neg w ≡ t
    → (w == 2 ^ 31) ≡ false
    → long_to_dec w false
      ≡ (if t then b'-' ∷ [] else []) ++ reverse (magnitude (if t then 2 ^ 32 - w else w))
unfolding long_to_dec
sign_cases w true h minus other =
    let same : neg32 w ≡ 2 ^ 32 - w = ground (arith, minus) in rw (minus, other, same) refl
sign_cases w false h plus other = rw plus refl

-- The text has at least one digit.
magnitude-ne_nil : (n : ℕ) → n < 2 ^ 32 → reverse (magnitude n) ≢ []
unfolding read_dec
magnitude-ne_nil n h empty =
    let zero_value : n ≡ 0 =
      sym (read_dec-magnitude n h) ∙ ap (λ (s : List ℕ). read_dec s 0) empty in
    let text : reverse (magnitude n) ≡ b'0' ∷ [] =
      ap (λ (k : ℕ). reverse (magnitude k)) zero_value in
    cc

-- What `longToDec` writes of a 32-bit pattern that is not INT32_MIN: as an unsigned number, one or
-- more characters from 0 to 9 that stand for it as decimal digits; as a signed one, a minus where
-- it is negative, and then the digits of its magnitude.
pub long_to_dec-meaning :
    (w : ℕ)
    → w < 2 ^ 32
    → w ≢ 2 ^ 31
    → All IsDigit (long_to_dec w true)
      × (long_to_dec w true ≢ [])
      × (read_dec (long_to_dec w true) 0 ≡ w)
      × (long_to_dec w false ≡ (if is_neg w then b'-' ∷ [] else []) ++ long_to_dec (abs32 w) true)
unfolding long_to_dec
long_to_dec-meaning w h ne = (
  magnitude-AreDigits w,
  magnitude-ne_nil w h,
  read_dec-magnitude w h,
  sign_cases w (is_neg w) h refl (ground (arith, ne)),
)
