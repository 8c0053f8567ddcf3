-- ===== src/Engine/Forward.antt =====
-- Results on their way to the operands that wait for them, in `write_back` of sw/src/engine.c.
use rv.Common.{
  if◌then◌else◌, Bool-cases, Option-cases, >>=-eq-some, All, ◌≡◌, sym, subst, ap, inl, inr, true,
  false, none, some, some-injective, List, [], ◌∷◌, map, arith,
}
use rv.Engine.State.{Engine, CdbData, ExbData, first_match}
use rv.Engine.WriteBack.{
  snoop, snoop_j, snoop_k, store_lanes, done_from, put_results, reset_lane, write_back,
}

-- An operand that still waits finds its tag on no valid lane.
abbrev pub Caught : List CdbData → ExbData → Type 0
Caught lanes x =
    x.busy ≡ true
    → (x.rj ≡ false → first_match x.qj lanes ≡ none)
      × (x.rk ≡ false → first_match x.qk lanes ≡ none)

-- The second operand, when the first is settled.
catch_k :
    (lanes : List CdbData) (x : ExbData)
    → (x.rj ≡ false → first_match x.qj lanes ≡ none)
    → ((snoop_k lanes x).rj ≡ false → first_match (snoop_k lanes x).qj lanes ≡ none)
      × ((snoop_k lanes x).rk ≡ false → first_match (snoop_k lanes x).qk lanes ≡ none)
catch_k lanes x h = elim (Bool-cases x.rk) [
  | inl ready ↦ rw ready (h, λ w. ground arith)
  | inr waits ↦ elim (Option-cases (first_match x.qk lanes)) [
    | inl lost ↦ rw (waits, lost) (h, λ w. lost)
    | inr (v, found) ↦ rw (waits, found) (h, λ w. ground arith)
  ]
]

catch_j :
    (lanes : List CdbData) (x : ExbData)
    → (snoop_j lanes x).rj ≡ false
    → first_match (snoop_j lanes x).qj lanes ≡ none
catch_j lanes x = elim (Bool-cases x.rj) [
  | inl ready ↦ rw ready (λ w. ground arith)
  | inr waits ↦ elim (Option-cases (first_match x.qj lanes)) [
    | inl lost ↦ rw (waits, lost) (λ w. lost)
    | inr (v, found) ↦ rw (waits, found) (λ w. ground arith)
  ]
]

snoop-Caught : (lanes : List CdbData) (x : ExbData) → Caught lanes (snoop lanes x)
snoop-Caught lanes x =
    let y = snoop_k lanes (snoop_j lanes x) in
    elim (Bool-cases x.busy) [
      | inl busy ↦
          (let same : snoop lanes x ≡ y = ap (λ b. if b then y else x) busy in
            subst (Caught lanes) (sym same)
              (λ b. catch_k lanes (snoop_j lanes x) (catch_j lanes x)))
      | inr free ↦
          (let same : snoop lanes x ≡ x = ap (λ b. if b then y else x) free in
            subst (Caught lanes) (sym same) (λ b. absurd (ground arith)))
    ]

map-snoop-Caught :
    (lanes : List CdbData) (xs : List ExbData) → All (Caught lanes) (map (snoop lanes) xs)
map-snoop-Caught lanes [] = tt
map-snoop-Caught lanes (x ∷ xs) = (snoop-Caught lanes x, map-snoop-Caught lanes xs)

-- After `write_back`, no operand in the execution buffer waits for a tag that a valid lane carries.
pub write_back-Caught :
    (e : Engine) {e' : Engine} → write_back e ≡ some e' → All (Caught e'.cdb.lane) e'.exb.buf
unfolding write_back
write_back-Caught e {e'} h =
    let done = done_from 0 e.exu.units in
    let (rob, _, h₁) = >>=-eq-some (store_lanes e.cdb.lane e.rob) _ h in
    let ((lanes, units), _, h₂) =
      >>=-eq-some (put_results 0 done (map reset_lane e.cdb.lane) e.exu.units) _ h₁ in
    subst (λ q. All (Caught q.cdb.lane) q.exb.buf) (some-injective _ e' h₂)
      (map-snoop-Caught lanes e.exb.buf)
