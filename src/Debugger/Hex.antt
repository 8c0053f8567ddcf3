-- ===== src/Debugger/Hex.antt =====
-- Hexadecimal numbers for sw/ELE749_projet1-develop/src/debugger.c and progReader.c: what `strtol`
-- reads of the digits that `printf` writes.
use native.Mathlib.Nat.{
  mod-lt, div-add-mod', mul-add-mod_self_right, mod-eq_of_lt, one-le-pow, pow-succ',
}
use rv.Common.{
  ◌==◌, ◌||◌, false, suc, ◌≤◌, refl, ◌<◌, sym, ap, ◌*◌, ◌∙◌, none, ltb, if◌then◌else◌, ℕ, zero, ◌+◌,
  ◌-◌, ◌/◌, ◌%◌, ◌^◌, ◌≡◌, Option, some, List, [], ◌∷◌, arith,
}
use rv.Int.{pos}
use rv.Debugger.Text.{skip_prefix, strtol, is_space, skip_space, signed_hex, hex_digit, hex_digits}

-- A digit of "%x".
abbrev pub hex_char : ℕ → ℕ
hex_char d = if ltb d 10 then b'0' + d else b'a' + (d - 10)

-- The lowest `k` digits of `n`, as "%0kx" writes a number of at most `k` digits.
unfoldable pub to_hex : ℕ → ℕ → List ℕ
to_hex zero n = []
to_hex (suc k) n = hex_char (n / 16 ^ k % 16) ∷ to_hex k n

hex_digit-hex_char : (d : ℕ) → d < 16 → hex_digit (hex_char d) ≡ some d
hex_digit-hex_char d h = ground arith

pub hex_digits_step :
    (c d acc : ℕ) (cs : List ℕ)
    → hex_digit c ≡ some d
    → hex_digits (c ∷ cs) acc ≡ hex_digits cs (acc * 16 + d)
unfolding hex_digits
hex_digits_step c d acc cs e =
    ap (λ (r : Option ℕ). elim r [ none ↦ acc | some v ↦ hex_digits cs (acc * 16 + v) ]) e

regroup : (a d p r : ℕ) → (a * 16 + d) * p + r ≡ a * (16 * p) + (d * p + r)
regroup a d p r = grind arith

pub top_digit :
    (n acc p : ℕ) → 0 < p → (acc * 16 + n / p % 16) * p + n % p ≡ acc * (16 * p) + n % (16 * p)
top_digit n acc p h =
    let q = n / p in
    let r = n % p in
    let low : r < p = mod-lt n h in
    let whole : n ≡ q / 16 * (16 * p) + (q % 16 * p + r) =
      sym (div-add-mod' n p)
      ∙ ap (λ v. v * p + r) (sym (div-add-mod' q 16))
      ∙ regroup (q / 16) (q % 16) p r in
    let small : q % 16 * p + r < 16 * p = grind (arith, low) in
    let last : n % (16 * p) ≡ q % 16 * p + r =
      ap (λ v. v % (16 * p)) whole
      ∙ mul-add-mod_self_right (q / 16) (16 * p) (q % 16 * p + r)
      ∙ mod-eq_of_lt small in
    rw last (grind arith)

hex_digits-to_hex : (k n acc : ℕ) → hex_digits (to_hex k n) acc ≡ acc * 16 ^ k + n % 16 ^ k
unfolding hex_digits to_hex
hex_digits-to_hex zero n acc = omega arith
hex_digits-to_hex (suc k) n acc =
    let d = n / 16 ^ k % 16 in
    hex_digits_step (hex_char d) d acc (to_hex k n) (hex_digit-hex_char d (omega arith))
    ∙ hex_digits-to_hex k n (acc * 16 + d)
    ∙ top_digit n acc (16 ^ k) (one-le-pow k 16 (omega arith))
    ∙ ap (λ v. acc * v + n % v) (sym (pow-succ' 16 k))

-- A digit is none of the characters that `strtol` looks for before the digits.
plain_char :
    (d : ℕ)
    → d < 16
    → (is_space (hex_char d) ≡ false)
      × ((hex_char d == b'-') ≡ false)
      × ((hex_char d == b'+') ≡ false)
      × ((hex_char d == b'x' || hex_char d == b'X') ≡ false)
plain_char d h = (ground arith, ground arith, ground arith, ground arith)

prefix_step :
    (z x d : ℕ) (cs : List ℕ)
    → (x == b'x' || x == b'X') ≡ false
    → skip_prefix (z ∷ x ∷ d ∷ cs) ≡ z ∷ x ∷ d ∷ cs
unfolding skip_prefix
prefix_step z x d cs h = ground (arith, h)

skip_prefix-to_hex : (k n : ℕ) → skip_prefix (to_hex k n) ≡ to_hex k n
unfolding to_hex skip_prefix
skip_prefix-to_hex zero n = refl
skip_prefix-to_hex (suc zero) n = refl
skip_prefix-to_hex (suc (suc zero)) n = refl
skip_prefix-to_hex (suc (suc (suc k))) n =
    prefix_step _ _ _ _ (plain_char (n / 16 ^ suc k % 16) (omega arith)).3

pub drop_zero : (p n : ℕ) → n < p → 0 * p + n % p ≡ n
drop_zero p n h = grind (arith, mod-eq_of_lt h)

-- `strtol` of base 16 reads a number that is not above the largest of the type, and has at most
-- `k + 1` digits, from its `k + 1` digits.
pub strtol-to_hex : (max k n : ℕ) → n < 16 ^ suc k → n ≤ max → strtol max (to_hex (suc k) n) ≡ pos n
unfolding to_hex skip_space signed_hex
strtol-to_hex max k n small fits =
    let d = n / 16 ^ k % 16 in
    let (space, minus, plus, _) = plain_char d (omega arith) in
    let reads : hex_digits (skip_prefix (to_hex (suc k) n)) 0 ≡ n =
      ap (λ (cs : List ℕ). hex_digits cs 0) (skip_prefix-to_hex (suc k) n)
      ∙ hex_digits-to_hex (suc k) n 0
      ∙ drop_zero (16 ^ suc k) n small in
    rw (space, minus, plus, reads) (ap pos (ground arith))
