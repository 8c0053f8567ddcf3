-- ===== src/Rv32/Scatter.antt =====
-- The immediates of sw/ELE749_projet1-develop/src/immediate.c as the instruction formats define
-- them: the bits of a word put in order, and the sign extended.
use rv.Common.{
  ltb, if◌then◌else◌, Bool-cases, ℕ, ◌+◌, ◌-◌, ◌*◌, ◌/◌, ◌^◌, ◌<◌, bit_or, ◌≡◌, refl, ap, inl, inr,
  false, some, arith, up, bit_or-join, bit_or-set,
}
use rv.Word.{is_neg, sra32}
use rv.Rv32.Codes.{Inst, field, masked}
use rv.Rv32.Decode.{decode_instruction}
use rv.Rv32.Immediate.{
  get_i_type_immediate, get_s_type_immediate, get_b_type_immediate, get_u_type_immediate,
  get_j_type_immediate, is_srai,
}

-- The sign extension of a number of `k` bits to 32.
abbrev pub sext : ℕ → ℕ → ℕ
sext k v = if ltb v (2 ^ k / 2) then v else v + (2 ^ 32 - 2 ^ k)

get_s_type_immediate_lem :
    (w : ℕ) → w < 2 ^ 32 → get_s_type_immediate w ≡ sext 12 (field 25 7 w * 2 ^ 5 + field 7 5 w)
unfolding get_s_type_immediate
get_s_type_immediate_lem w h =
    let hi = sra32 (masked 25 7 w) 20 in
    let lo = masked 7 5 w / 2 ^ 7 in
    elim (Bool-cases (is_neg w)) [
      | inl neg ↦
          let high : hi ≡ up 5 (field 25 7 w + (2 ^ 27 - 2 ^ 7)) = ground arith in
          let joined = bit_or-join 5 (field 25 7 w + (2 ^ 27 - 2 ^ 7)) hi lo high (omega arith) in
          let whole =
            bit_or-set 12 0xFFFFF (field 25 7 w * 2 ^ 5 + field 7 5 w) (bit_or hi lo) 0xFFFFF000
              (ground arith) (omega arith) (omega arith) in
          ground (arith, high, joined, whole)
      | inr plus ↦
          let high : hi ≡ up 5 (field 25 7 w) = ground arith in
          let joined = bit_or-join 5 (field 25 7 w) hi lo high (omega arith) in
          ground (arith, high, joined)
    ]

-- Three blocks put one behind the other, that end at the digits `k`, `l` and `m`.
join_three :
    (k l m t a b x p q r : ℕ)
    → x ≡ up k t
    → p < up k 1
    → x + p ≡ up l a
    → q < up l 1
    → x + p + q ≡ up m b
    → r < up m 1
    → bit_or (bit_or (bit_or x p) q) r ≡ x + p + q + r
join_three k l m t a b x p q r e₁ h₁ e₂ h₂ e₃ h₃ =
    let one = bit_or-join k t x p e₁ h₁ in
    let two = bit_or-join l a (bit_or x p) q (omega (arith, one)) h₂ in
    let three = bit_or-join m b (bit_or (bit_or x p) q) r (omega (arith, one, two)) h₃ in
    omega (arith, one, two, three)

get_b_type_immediate_lem :
    (w : ℕ)
    → w < 2 ^ 32
    → get_b_type_immediate w
      ≡ sext 13
          (field 31 1 w * 2 ^ 12 + field 7 1 w * 2 ^ 11 + field 25 6 w * 2 ^ 5 + field 8 4 w * 2)
unfolding get_b_type_immediate
get_b_type_immediate_lem w h =
    let x = sra32 (masked 31 1 w) 19 in
    let p = masked 7 1 w * 2 ^ 4 in
    let q = masked 25 6 w / 2 ^ 20 in
    let r = masked 8 4 w / 2 ^ 7 in
    let top = x / 2 ^ 12 in
    let high : x ≡ up 12 top = ground arith in
    let joined =
      join_three 12 11 5 top (top * 2 + field 7 1 w)
        ((top * 2 + field 7 1 w) * 2 ^ 6 + field 25 6 w) x p q r high (omega arith) (omega arith)
        (omega arith) (omega arith) (omega arith) in
    elim (Bool-cases (is_neg w)) [
      | inl neg ↦
          let whole =
            bit_or-set 13 0x7FFFF
              (2 ^ 12 + field 7 1 w * 2 ^ 11 + field 25 6 w * 2 ^ 5 + field 8 4 w * 2)
              (bit_or (bit_or (bit_or x p) q) r) 0xFFFFE000 (ground arith) (omega arith)
              (omega arith) in
          ground (arith, joined, whole)
      | inr plus ↦ ground (arith, joined)
    ]

get_j_type_immediate_lem :
    (w : ℕ)
    → w < 2 ^ 32
    → get_j_type_immediate w
      ≡ sext 21 (
          field 31 1 w * 2 ^ 20 + field 12 8 w * 2 ^ 12 + field 20 1 w * 2 ^ 11 + field 21 10 w * 2)
unfolding get_j_type_immediate
get_j_type_immediate_lem w h =
    let x = sra32 (masked 31 1 w) 11 in
    let p = masked 12 8 w in
    let q = masked 20 1 w / 2 ^ 9 in
    let r = masked 21 10 w / 2 ^ 20 in
    let top = x / 2 ^ 20 in
    let high : x ≡ up 20 top = ground arith in
    let joined =
      join_three 20 12 11 top (top * 2 ^ 8 + field 12 8 w)
        ((top * 2 ^ 8 + field 12 8 w) * 2 + field 20 1 w) x p q r high (omega arith) (omega arith)
        (omega arith) (omega arith) (omega arith) in
    elim (Bool-cases (is_neg w)) [
      | inl neg ↦
          let whole =
            bit_or-set 21 0x7FF
              (2 ^ 20 + field 12 8 w * 2 ^ 12 + field 20 1 w * 2 ^ 11 + field 21 10 w * 2)
              (bit_or (bit_or (bit_or x p) q) r) 0xFFE00000 (ground arith) (omega arith)
              (omega arith) in
          ground (arith, joined, whole)
      | inr plus ↦ ground (arith, joined)
    ]

get_u_type_immediate_lem : (w : ℕ) → get_u_type_immediate w ≡ field 12 20 w * 2 ^ 12
unfolding get_u_type_immediate
get_u_type_immediate_lem w = refl

-- The I immediate of a word that decodes to another instruction than SRAI is its upper twelve bits,
-- sign-extended.
pub get_i_type_immediate_lem :
    (w : ℕ) {inst : Inst}
    → w < 2 ^ 32
    → decode_instruction w ≡ some inst
    → is_srai inst ≡ false
    → get_i_type_immediate w ≡ some (sext 12 (field 20 12 w))
unfolding get_i_type_immediate
get_i_type_immediate_lem w {inst} h d n =
    let x = sra32 (masked 20 12 w) 20 in
    rw (d, n)
      (ap some (elim (Bool-cases (is_neg w)) [
        | inl neg ↦
            let whole =
              bit_or-set 12 0xFFFFF (field 20 12 w) x 0xFFFFF000 (ground arith) (omega arith)
                (omega arith) in
            ground (arith, whole)
        | inr plus ↦ ground arith
      ]))

-- The S, B, U and J immediates of any word are the bits of the word in the order of the format,
-- sign-extended to 32 bits.
pub format_immediates :
    (w : ℕ)
    → w < 2 ^ 32
    → (get_s_type_immediate w ≡ sext 12 (field 25 7 w * 2 ^ 5 + field 7 5 w))
      × (get_b_type_immediate w
          ≡ sext 13 (
              field 31 1 w * 2 ^ 12
              + field 7 1 w * 2 ^ 11
              + field 25 6 w * 2 ^ 5
              + field 8 4 w * 2))
      × (get_u_type_immediate w ≡ field 12 20 w * 2 ^ 12)
      × (get_j_type_immediate w
          ≡ sext 21 (
              field 31 1 w * 2 ^ 20
              + field 12 8 w * 2 ^ 12
              + field 20 1 w * 2 ^ 11
              + field 21 10 w * 2))
format_immediates w h = (
  get_s_type_immediate_lem w h,
  get_b_type_immediate_lem w h,
  get_u_type_immediate_lem w,
  get_j_type_immediate_lem w h,
)
