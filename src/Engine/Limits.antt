-- ===== src/Engine/Limits.antt =====
-- Full structures in sw/src/engine.c.
use rv.Common.{
  ltb, ◌==◌, ltb→lt, Bool-cases, Option-cases, >>=-eq-some, length, get_elem?, set, store, All,
  length-set, length-map, ℕ, ◌+◌, ◌≤◌, ◌<◌, ◌≡◌, refl, sym, ap, ◌∙◌, ◌≢◌, inl, inr, Bool, true,
  false, Option, none, some, some-injective, List, [], ◌∷◌, map, arith,
}
use rv.Int.{pos, negsuc, ℤ}
use rv.Word.{u32}
use rv.Decoder.{InstField, decode}
use rv.Engine.State.{Engine, CdbData, ExuData, ExbData}
use rv.Engine.WriteBack.{store_lanes, done_from, put_results, reset_lane, write_back}
use rv.Engine.Issue.{issue}
use rv.Engine.Dispatch.{Locals, place, new_entry, enter, dispatch, operand_j, second_source}
use rv.Engine.Run.{before_issue, engine_run}
use rv.Rob.{Rob, rob_issue, rob_full}
use rv.Reg.{reg_write_src}

put_results_overflow :
    (i : ℕ) (ks : List ℕ) (lanes : List CdbData) (units : List ExuData)
    → i ≤ length lanes
    → length lanes < i + length ks
    → put_results i ks lanes units ≡ none
unfolding put_results
put_results_overflow i [] lanes units h l = absurd (omega arith)
put_results_overflow i (k ∷ ks) lanes units h l = elim (Option-cases (get_elem? units k)) [
  | inl lost ↦ rw lost refl
  | inr (u, found) ↦
      (let lane : CdbData = record { qr = u.qr; result = u.result; valid = true } in
        elim (Bool-cases (ltb i (length lanes))) [
          | inl room ↦
              (let rest = λ (us : List ExuData).
                  put_results_overflow (i + 1) ks (set lanes i lane) us
                    (omega (arith, length-set lanes i lane, ltb→lt i (length lanes) room))
                    (omega (arith, length-set lanes i lane)) in
                rw (found, room)
                  (elim (Option-cases (store units k (record u { busy = false }))) [
                    | inl lost ↦ rw lost refl
                    | inr (us, stored) ↦ rw (stored, rest us) refl
                  ]))
          | inr full ↦ rw (found, full) refl
        ])
]

-- With more finished units than lanes, `write_back` faults.
pub write_back_overflow :
    (e : Engine) → length e.cdb.lane < length (done_from 0 e.exu.units) → write_back e ≡ none
unfolding write_back
write_back_overflow e h = elim (Option-cases (store_lanes e.cdb.lane e.rob)) [
  | inl lost ↦ rw lost refl
  | inr (r, stored) ↦
      rw
        (
          stored,
          put_results_overflow 0 (done_from 0 e.exu.units) (map reset_lane e.cdb.lane) e.exu.units
              (omega arith) (omega (arith, length-map reset_lane e.cdb.lane)),
        )
        refl
]

-- A full buffer takes nothing.
place_full : (y : ExbData) (xs : List ExbData) → All (λ x. x.busy ≡ true) xs → place y xs ≡ xs
unfolding place
place_full y [] h = refl
place_full y (x ∷ xs) h = rw (h.0, place_full y xs h.1)

rob_issue_cnt :
    (dest old : ℕ) (r : Rob) {ok : Bool} {out : Option ℕ} {r' : Rob}
    → r.cnt ≢ r.size
    → rob_issue dest (some old) r ≡ some (ok, out, r')
    → r'.cnt ≡ r.cnt + 1
unfolding rob_issue
rob_issue_cnt dest old r free h = ground arith

enter_dropped :
    (junk : Locals) (inst : InstField) (e : Engine) {code : ℤ} {e' : Engine}
    → All (λ x. x.busy ≡ true) e.exb.buf
    → e.rob.cnt ≢ e.rob.size
    → enter junk inst e ≡ some (code, e')
    → (e'.exb.buf ≡ e.exb.buf) × (e'.rob.cnt ≡ e.rob.cnt + 1)
unfolding enter
enter_dropped junk inst e {code} {e'} h free r =
    let ((_, out, rob), issues, r₁) = >>=-eq-some (rob_issue inst.rd (some junk.qr) e.rob) _ r in
    let (qr, _, r₂) = >>=-eq-some out _ r₁ in
    let (j, _, r₃) = >>=-eq-some (operand_j inst.rs1 junk e.cdb.lane rob e.reg) _ r₂ in
    let (k, _, r₄) = >>=-eq-some (second_source inst junk j.v e.cdb.lane rob e.reg) _ r₃ in
    let ((_, reg), _, r₅) = >>=-eq-some (reg_write_src inst.rd qr e.reg) _ r₄ in
    let same = ap (λ q. q.1) (some-injective _ (code, e') r₅) in
    (
      sym (ap (λ q. q.exb.buf) same) ∙ place_full (new_entry qr j k) e.exb.buf h,
      sym (ap (λ q. q.rob.cnt) same) ∙ rob_issue_cnt inst.rd junk.qr e.rob free issues,
    )

negsuc-ne_pos :
    {a b : Engine} → ◌≢◌ {A = Option (ℤ × Engine)} (some (negsuc 0, a)) (some (pos 0, b))
negsuc-ne_pos {a} {b} h = let code : negsuc 0 ≡ pos 0 = ap (λ q. q.0) (some-injective _ _ h) in cc

-- With a full execution buffer, an instruction that `dispatch` accepts takes an entry of the
-- reorder buffer, but no place in the execution buffer.
pub dispatch_dropped :
    (junk : Locals) (e : Engine) {e' : Engine}
    → All (λ x. x.busy ≡ true) e.exb.buf
    → dispatch junk e ≡ some (pos 0, e')
    → (e'.exb.buf ≡ e.exb.buf) × (e'.rob.cnt ≡ e.rob.cnt + 1)
unfolding dispatch rob_full
dispatch_dropped junk e {e'} h r = elim (Bool-cases (e.instruction == 0)) [
  | inl empty ↦ absurd (negsuc-ne_pos (rw empty at r))
  | inr some_instruction ↦ elim (Bool-cases (e.rob.size == e.rob.cnt)) [
    | inl full ↦ absurd (negsuc-ne_pos (rw (some_instruction, full) at r))
    | inr free ↦
        (let entered : enter junk (decode e.instruction) e ≡ some (pos 0, e') =
            rw (some_instruction, free) at r in
          enter_dropped junk (decode e.instruction) e h (λ q. ground arith) entered)
  ]
]

-- With a full reorder buffer, a cycle moves on to the next instruction although the current one has
-- not entered the engine: all other state is what `issue` left.
pub engine_run_skips :
    (little : Bool) (junk : Locals) (e : Engine) {e₁ e₂ : Engine} {count : ℕ}
    → before_issue little e ≡ some e₁
    → issue e₁ ≡ some (count, e₂)
    → e₂.rob.size ≡ e₂.rob.cnt
    → engine_run little junk e ≡ some (pos 0, record e₂ { pc = u32 (e₂.pc + 4) })
unfolding engine_run dispatch rob_full
engine_run_skips little junk e {e₂ = e₂} r s full =
    rw (r, s)
      (elim (Bool-cases (e₂.instruction == 0)) [
        | inl empty ↦ rw empty refl
        | inr some_instruction ↦
            (let test : (e₂.rob.size == e₂.rob.cnt) ≡ true = ground arith in
              rw (some_instruction, test) refl)
      ])
