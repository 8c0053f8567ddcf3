-- ===== src/Disassembler/Pieces.antt =====
-- The texts of sw/ELE749_projet1-develop/src/desassembly.c are made of short parts.
use rv.Common.{
  leb, ◌==◌, Bool-cases, length, length-append, ℕ, zero, suc, ◌+◌, ◌/◌, ◌^◌, ◌≤◌, ◌<◌, ◌≡◌, refl,
  sym, subst, ap, inl, inr, Bool, true, false, Option, none, some, List, [], ◌∷◌, ◌++◌, arith,
  Yields, Yields-some, elim-true, elim-false,
}
use rv.Word.{is_neg, neg32}
use rv.Rv32.RoundTrip.{length-reversed}
use rv.Disassembler.Digits.{
  digits, magnitude, long_to_dec, hex_loop, hex_str, bad_instruction, register, hex_number,
  base_register,
}
use rv.Disassembler.Lengths.{NoLonger}

pub length-digits : (fuel n : ℕ) → length (digits fuel n) ≤ fuel
unfolding digits
length-digits zero n = omega arith
length-digits (suc fuel) n =
    elim (Bool-cases (n == 0)) as (λ _. length (digits (suc fuel) n) ≤ suc fuel) [
      | inl e ↦ subst (λ (s : List ℕ). length s ≤ suc fuel) (sym (elim-true _ _ e)) (omega arith)
      | inr e ↦
          subst (λ (s : List ℕ). length s ≤ suc fuel) (sym (elim-false _ _ e))
            (omega (arith, length-digits fuel (n / 10)))
    ]

-- A number below 100 has at most two digits.
pub length-two : (n : ℕ) → n < 100 → length (magnitude n) ≤ 2
unfolding digits
length-two n h = ground (arith, h)

pub length-magnitude : (n : ℕ) → length (magnitude n) ≤ 10
length-magnitude n = elim (Bool-cases (n == 0)) as (λ _. length (magnitude n) ≤ 10) [
  | inl e ↦ subst (λ (s : List ℕ). length s ≤ 10) (sym (elim-true _ _ e)) (omega arith)
  | inr e ↦ subst (λ (s : List ℕ). length s ≤ 10) (sym (elim-false _ _ e)) (length-digits 10 n)
]

pub length-long_to_dec-two : (n : ℕ) (t : Bool) → n < 100 → length (long_to_dec n t) ≤ 2
unfolding long_to_dec
length-long_to_dec-two n true h = omega (arith, length-reversed (magnitude n), length-two n h)
length-long_to_dec-two n false h =
    let plus : is_neg n ≡ false = ground arith in
    rw plus (omega (arith, length-reversed (magnitude n), length-two n h))

pub length-long_to_dec : (n : ℕ) (t : Bool) → length (long_to_dec n t) ≤ 11
unfolding long_to_dec
length-long_to_dec n true = omega (arith, length-reversed (magnitude n), length-magnitude n)
length-long_to_dec n false = elim (Bool-cases (is_neg n)) [
  | inr plus ↦ rw plus (omega (arith, length-reversed (magnitude n), length-magnitude n))
  | inl minus ↦ elim (Bool-cases (n == 2 ^ 31)) [
    | inl e ↦ rw (minus, e) (omega arith)
    | inr e ↦
        rw (minus, e)
          (omega (arith, length-reversed (magnitude (neg32 n)), length-magnitude (neg32 n)))
  ]
]

pub length-hex_loop : (k l : ℕ) → length (hex_loop k l) ≡ k
unfolding hex_loop
length-hex_loop zero l = refl
length-hex_loop (suc k) l = ap suc (length-hex_loop k l)

pub length-hex_str : (l : ℕ) → length (hex_str l) ≤ 8
unfolding hex_str
length-hex_str l = elim (Bool-cases (leb l 0xFF)) [
  | inl e ↦ rw e (omega (arith, length-hex_loop 2 l))
  | inr e ↦ elim (Bool-cases (leb l 0xFFFF)) [
    | inl f ↦ rw (e, f) (omega (arith, length-hex_loop 4 l))
    | inr f ↦ rw (e, f) (omega (arith, length-hex_loop 8 l))
  ]
]

pub append-NoLonger :
    {j k : ℕ} {xs ys : List ℕ} → NoLonger j xs → NoLonger k ys → NoLonger (j + k) (xs ++ ys)
append-NoLonger {j} {k} {xs} {ys} h g = record {
  bound = omega (arith, length-append xs ys, h.bound, g.bound);
}

pub register-NoLonger : (n : ℕ) (t : Bool) → n < 100 → NoLonger 4 (register n t)
register-NoLonger n t h = record { bound = omega (arith, length-long_to_dec-two n t h) }

pub hex_number-NoLonger : (n : ℕ) → NoLonger 11 (hex_number n)
hex_number-NoLonger n = record { bound = omega (arith, length-hex_str n) }

pub base_register-NoLonger : (n : ℕ) (t : Bool) → n < 100 → NoLonger 5 (base_register n t)
base_register-NoLonger n t h = record {
  bound = omega (arith, length-append (long_to_dec n t) (b')' ∷ []), length-long_to_dec-two n t h);
}

pub decimal-NoLonger : (n : ℕ) (t : Bool) → NoLonger 12 (b' ' ∷ long_to_dec n t)
decimal-NoLonger n t = record { bound = omega (arith, length-long_to_dec n t) }

pub stack_base-NoLonger : NoLonger 4 (b'(' ∷ b'x' ∷ b'2' ∷ b')' ∷ [])
stack_base-NoLonger = record { bound = omega arith }

pub stack_hex-NoLonger : (n : ℕ) → NoLonger 14 (b' ' ∷ b'x' ∷ b'2' ∷ hex_number n)
stack_hex-NoLonger n = record { bound = omega (arith, length-hex_str n) }

-- The text of an instruction.
abbrev pub Fits : List ℕ → Type 0
Fits = NoLonger 28

pub fits : (k : ℕ) {xs : List ℕ} → k ≤ 28 → NoLonger k xs → Fits xs
fits k h g = record { bound = omega (arith, h, g.bound) }

pub named :
    (k : ℕ) (name : Option (List ℕ)) {f : List ℕ → Option (List ℕ)}
    → Yields (NoLonger k) name
    → ((t : List ℕ) → NoLonger k t → Yields Fits (f t))
    → Yields Fits (elim name [ none ↦ some bad_instruction | some t ↦ f t ])
named k none s h = Yields-some Fits (record { bound = omega arith })
named k (some t) s h = h t (s t refl)
