-- ===== src/Alu/Shift.antt =====
-- The shifts of `alu_exec`, sw/src/unit.c.
use rv.Common.{
  if◌then◌else◌, ltb→lt, lt→ltb, Bool-cases, ℕ, ◌+◌, ◌-◌, ◌*◌, ◌/◌, ◌^◌, ◌≤◌, ◌<◌, ◌≡◌, sym, subst,
  ap, ◌↔◌, inl, inr, false, none, some, arith,
}
use rv.Word.{is_neg, u32, sra32}
use rv.Int.{pos, ◌+ℤ◌, ◌*ℤ◌, ◌≤ℤ◌, signed32}
use rv.Alu.{alu_exec, f10_sll, f10_srl, f10_sra}
use native.Mathlib.Nat.{mod-eq_of_lt, one-le-pow, pow-le-pow_right}

-- The three shifts are undefined exactly for amounts of 32 and more.
pub shift_defined :
    (a b : ℕ)
    → ((alu_exec f10_sll a b ≡ none) ↔ (32 ≤ b))
      × ((alu_exec f10_srl a b ≡ none) ↔ (32 ≤ b))
      × ((alu_exec f10_sra a b ≡ none) ↔ (32 ≤ b))
unfolding alu_exec
shift_defined a b = ground arith

sra_floor :
    (p w : ℕ)
    → 0 < p
    → p ≤ 2 ^ 31
    → w < 2 ^ 32
    → 2 ^ 31 ≤ w
    → let t = (w + 2 ^ 32 * (p - 1)) / p in
      (t < 2 ^ 32)
      × (2 ^ 31 ≤ t)
      × (t * p + 2 ^ 32 ≤ w + 2 ^ 32 * p)
      × (w + 2 ^ 32 * p < t * p + p + 2 ^ 32)
sra_floor p w h0 h1 hw hn = grind arith

-- `r` is `w` divided by `p`, rounded down, of signed numbers.
abbrev pub IsFloor : ℕ → ℕ → ℕ → Type 0
IsFloor p w r =
    (signed32 r *ℤ pos p ≤ℤ signed32 w) × (signed32 w ≤ℤ signed32 r *ℤ pos p +ℤ pos (p - 1))

IsFloor-neg :
    (p w t u : ℕ)
    → 0 < p
    → w < 2 ^ 32
    → 2 ^ 31 ≤ w
    → t < 2 ^ 32
    → 2 ^ 31 ≤ t
    → t + u ≡ 2 ^ 32
    → t * p + 2 ^ 32 ≤ w + 2 ^ 32 * p
    → w + 2 ^ 32 * p < t * p + p + 2 ^ 32
    → IsFloor p w t
unfolding ◌+ℤ◌ ◌*ℤ◌
IsFloor-neg p w t u h0 hw hn ht htn e lo hi =
    let prod : t * p + u * p ≡ 2 ^ 32 * p = omega (arith, ap (λ (s : ℕ). s * p) e) in
    let same : 2 ^ 32 - t ≡ u = omega arith in ground (arith, prod, same)

IsFloor-pos :
    (p w t : ℕ) → 0 < p → w < 2 ^ 31 → t < 2 ^ 31 → t * p ≤ w → w < t * p + p → IsFloor p w t
unfolding ◌+ℤ◌ ◌*ℤ◌
IsFloor-pos p w t h0 hw ht lo hi = ground arith

sra_IsFloor :
    (p w : ℕ)
    → 0 < p
    → p ≤ 2 ^ 31
    → w < 2 ^ 32
    → IsFloor p w (if is_neg w then u32 ((w + 2 ^ 32 * (p - 1)) / p) else w / p)
sra_IsFloor p w h0 h1 hw = elim (Bool-cases (is_neg w)) [
  | inl nw ↦ rw nw (down (ltb→lt _ _ nw))
  | inr nw ↦ rw nw (up (lt_half nw))
]
  where
    t : ℕ
    t = (w + 2 ^ 32 * (p - 1)) / p

    down : 2 ^ 31 ≤ w → IsFloor p w (u32 t)
    down hn =
        let (a, b, c, d) = sra_floor p w h0 h1 hw hn in
        subst (IsFloor p w) (sym (mod-eq_of_lt a))
          (IsFloor-neg p w t (2 ^ 32 - t) h0 hw hn a b (omega arith) c d)

    lt_half : is_neg w ≡ false → w < 2 ^ 31
    lt_half e = ground arith

    up : w < 2 ^ 31 → IsFloor p w (w / p)
    up h = IsFloor-pos p w (w / p) h0 h (grind arith) (grind arith) (grind arith)

pow_small : (k : ℕ) → k < 32 → (0 < 2 ^ k) × (2 ^ k ≤ 2 ^ 31)
pow_small k h =
    (one-le-pow k 2 (omega arith), pow-le-pow_right {n = 2} (omega arith) {j = 31} (omega arith))

-- SRA of a word by less than 32 divides the signed operand by the power of two, rounding down.
pub sra_lem :
    (a k : ℕ)
    → a < 2 ^ 32
    → k < 32
    → (r : ℕ) × (alu_exec f10_sra a k ≡ some r) × IsFloor (2 ^ k) a r
unfolding alu_exec
sra_lem a k ha hk =
    let (lo, hi) = pow_small k hk in (sra32 a k, rw (lt→ltb _ _ hk), sra_IsFloor (2 ^ k) a lo hi ha)
