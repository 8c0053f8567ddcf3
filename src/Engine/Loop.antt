-- ===== src/Engine/Loop.antt =====
-- The loop of sw/src/main.c: cycles of the engine, one after the other.
use rv.Common.{
  ℕ, ◌+◌, ◌*◌, ◌^◌, ◌≡◌, ◌==◌, ◌>>=◌, >>=-eq-some, refl, sym, ap, ◌∙◌, arith, if◌then◌else◌, Bool,
  Bool-cases, inl, inr, Option, none, some, some-injective, List, [], ◌∷◌, map, length, ltb, ◌<◌,
  subst,
}
use rv.Int.{ℤ, pos}
use rv.Word.{u32}
use rv.Mem.{mem_read}
use rv.Rob.{Commit, rob_commit, rob_issue, rob_full}
use rv.Reg.{reg_write_data, reg_write_src}
use rv.Engine.Commit.{retire, commit}
use rv.Engine.Init.{is_zero}
use rv.Engine.WriteBack.{execute, store_lanes, done_from, put_results, reset_lane, write_back}
use rv.Engine.Invariant.{IsValid}
use rv.Engine.Safety.WriteBack.{FewDone}
use rv.Engine.Safety.Cycle.{HasMemory, AllowedOps, engine_run-IsValid}
use rv.Mem.Endian.{word_bytes, word_of}
use rv.Decoder.{InstField, decode}
use rv.Engine.State.{Engine}
use rv.Engine.Issue.{ready_from, free_from, issue_loop, issue}
use rv.Engine.Dispatch.{Locals, operand_j, second_source, enter, dispatch}
use rv.Engine.Run.{fetch, before_issue, engine_run}

-- As many cycles as there are sets of uninitialised variables, or up to the first whose result is not 0.
unfoldable pub main_loop : Bool → List Locals → Engine → Option (ℤ × Engine)
main_loop little [] e = some (pos 0, e)
main_loop little (junk ∷ junks) e = do
  (retval, e') ← engine_run little junk e
  let rest = main_loop little junks e'
  if is_zero retval then rest else some (retval, e')

-- The program counter and the memory, which no phase changes.
abbrev Kept : Engine → Engine → Type 0
Kept e e' = (e'.pc ≡ e.pc) × (e'.mem ≡ e.mem)

fetch-Kept : (little : Bool) (e : Engine) {e' : Engine} → fetch little e ≡ some e' → Kept e e'
unfolding fetch
fetch-Kept little e {e'} h =
    let ((_, out), _, h₁) =
      >>=-eq-some (mem_read little e.pc (some (word_bytes little e.instruction)) 4 e.mem) _ h in
    let (bytes, _, h₂) = >>=-eq-some out _ h₁ in
    let (word, _, h₃) = >>=-eq-some (word_of little bytes) _ h₂ in
    let same = some-injective _ e' h₃ in (sym (ap (λ q. q.pc) same), sym (ap (λ q. q.mem) same))

retire-Kept : (c : Option Commit) (e : Engine) {e' : Engine} → retire c e ≡ some e' → Kept e e'
unfolding retire
retire-Kept none e {e'} h =
    let same = some-injective e e' h in (sym (ap (λ q. q.pc) same), sym (ap (λ q. q.mem) same))
retire-Kept (some c) e {e'} h =
    let ((_, reg), _, h₁) = >>=-eq-some (reg_write_data c.dest c.value e.reg) _ h in
    let same = some-injective _ e' h₁ in (sym (ap (λ q. q.pc) same), sym (ap (λ q. q.mem) same))

commit-Kept : (e : Engine) {e' : Engine} → commit e ≡ some e' → Kept e e'
unfolding commit
commit-Kept e {e'} h =
    let ((c, rob), _, h₁) = >>=-eq-some (rob_commit e.rob) _ h in
    retire-Kept c (record e { rob = rob }) h₁

write_back-Kept : (e : Engine) {e' : Engine} → write_back e ≡ some e' → Kept e e'
unfolding write_back
write_back-Kept e {e'} h =
    let done = done_from 0 e.exu.units in
    let (rob, _, h₁) = >>=-eq-some (store_lanes e.cdb.lane e.rob) _ h in
    let (_, _, h₂) =
      >>=-eq-some (put_results 0 done (map reset_lane e.cdb.lane) e.exu.units) _ h₁ in
    let same = some-injective _ e' h₂ in (sym (ap (λ q. q.pc) same), sym (ap (λ q. q.mem) same))

issue-Kept : (e : Engine) {count : ℕ} {e' : Engine} → issue e ≡ some (count, e') → Kept e e'
unfolding issue
issue-Kept e {count} {e'} h =
    let ready = ready_from 0 e.exb.buf in
    let free = free_from 0 e.exu.units in
    let nb_issue = if ltb (length free) (length ready) then length free else length ready in
    let (_, _, h₁) = >>=-eq-some (issue_loop nb_issue free ready e.exu.units e.exb.buf) _ h in
    let same = ap (λ q. q.1) (some-injective _ (count, e') h₁) in
    (sym (ap (λ q. q.pc) same), sym (ap (λ q. q.mem) same))

enter-Kept :
    (junk : Locals) (inst : InstField) (e : Engine) {code : ℤ} {e' : Engine}
    → enter junk inst e ≡ some (code, e')
    → Kept e e'
unfolding enter
enter-Kept junk inst e {code} {e'} r =
    let ((_, out, rob), issues, r₁) = >>=-eq-some (rob_issue inst.rd (some junk.qr) e.rob) _ r in
    let (qr, _, r₂) = >>=-eq-some out _ r₁ in
    let (j, _, r₃) = >>=-eq-some (operand_j inst.rs1 junk e.cdb.lane rob e.reg) _ r₂ in
    let (k, _, r₄) = >>=-eq-some (second_source inst junk j.v e.cdb.lane rob e.reg) _ r₃ in
    let ((_, reg), _, r₅) = >>=-eq-some (reg_write_src inst.rd qr e.reg) _ r₄ in
    let same = ap (λ q. q.1) (some-injective _ (code, e') r₅) in
    (sym (ap (λ q. q.pc) same), sym (ap (λ q. q.mem) same))

dispatch-Kept :
    (junk : Locals) (e : Engine) {code : ℤ} {e' : Engine}
    → dispatch junk e ≡ some (code, e')
    → Kept e e'
unfolding dispatch
dispatch-Kept junk e {code} {e'} h = elim (Bool-cases (e.instruction == 0)) [
  | inl empty ↦ stays (rw empty at h)
  | inr some_instruction ↦ elim (Bool-cases (rob_full e.rob)) [
    | inl full ↦ stays (rw (some_instruction, full) at h)
    | inr free ↦
        (let entered : enter junk (decode e.instruction) e ≡ some (code, e') =
            rw (some_instruction, free) at h in
          enter-Kept junk (decode e.instruction) e entered)
  ]
]
  where
    stays : {c : ℤ} → ◌≡◌ {A = Option (ℤ × Engine)} (some (c, e)) (some (code, e')) → Kept e e'
    stays {c} s =
        let same = ap (λ q. q.1) (some-injective (c, e) (code, e') s) in
        (sym (ap (λ q. q.pc) same), sym (ap (λ q. q.mem) same))

Kept-both : (a b c : Engine) → Kept a b → Kept b c → Kept a c
Kept-both a b c (p, m) (q, n) = (q ∙ p, n ∙ m)

before_issue-Kept :
    (little : Bool) (e : Engine) {e' : Engine} → before_issue little e ≡ some e' → Kept e e'
unfolding before_issue execute
before_issue-Kept little e {e'} h =
    let (e₁, r₁, h₁) = >>=-eq-some (fetch little e) _ h in
    let (e₂, r₂, h₂) = >>=-eq-some (commit e₁) _ h₁ in
    let (e₃, r₃, h₃) = >>=-eq-some (write_back e₂) _ h₂ in
    let same = some-injective _ e' h₃ in
    let (p, m) =
      Kept-both e e₁ e₃ (fetch-Kept little e r₁)
        (Kept-both e₁ e₂ e₃ (commit-Kept e₁ r₂) (write_back-Kept e₂ r₃)) in
    (sym (ap (λ q. q.pc) same) ∙ p, sym (ap (λ q. q.mem) same) ∙ m)

-- A cycle adds 4 to the program counter and leaves the memory alone.
engine_run_frame :
    (little : Bool) (junk : Locals) (e : Engine) {code : ℤ} {e' : Engine}
    → engine_run little junk e ≡ some (code, e')
    → (e'.pc ≡ u32 (e.pc + 4)) × (e'.mem ≡ e.mem)
unfolding engine_run
engine_run_frame little junk e {code} {e'} h =
    let (e₁, r₁, h₁) = >>=-eq-some (before_issue little e) _ h in
    let ((_, e₂), r₂, h₂) = >>=-eq-some (issue e₁) _ h₁ in
    let ((_, e₃), r₃, h₃) = >>=-eq-some (dispatch junk e₂) _ h₂ in
    let same = ap (λ q. q.1) (some-injective _ (code, e') h₃) in
    let (p, m) =
      Kept-both e e₁ e₃ (before_issue-Kept little e r₁)
        (Kept-both e₁ e₂ e₃ (issue-Kept e₁ r₂) (dispatch-Kept junk e₂ r₃)) in
    (sym (ap (λ q. q.pc) same) ∙ ap (λ q. u32 (q + 4)) p, sym (ap (λ q. q.mem) same) ∙ m)

-- In each of the cycles, there is a lane for every finished unit, and C defines every operation that
-- is ready when `issue` runs.
unfoldable pub AllDefined : Bool → List Locals → Engine → Type 0
AllDefined little [] e = Unit
AllDefined little (junk ∷ junks) e =
    FewDone e
    × AllowedOps little e
    × ((e' : Engine) → engine_run little junk e ≡ some (pos 0, e') → AllDefined little junks e')

-- From a valid engine with a memory and a program counter below 2 ^ 32, if in each of the cycles no
-- more units have finished than there are lanes and C defines every operation that is ready when
-- `issue` runs, the main loop runs any number of cycles without a fault and without an end: the
-- result of each is 0. The engine stays valid, the memory is unchanged, and the program counter has
-- gone up by 4 for each cycle, modulo 2 ^ 32.
pub main_loop-IsValid :
    {n : ℕ} (little : Bool) (junks : List Locals) {e : Engine} {b : List ℕ}
    → IsValid n e
    → HasMemory e.mem b
    → e.pc < 2 ^ 32
    → AllDefined little junks e
    → (e' : Engine) × (main_loop little junks e ≡ some (pos 0, e'))
      × IsValid n e'
      × (e'.mem ≡ e.mem)
      × (e'.pc ≡ u32 (e.pc + 4 * length junks))
unfolding main_loop AllDefined
main_loop-IsValid little [] {e} v m h d = (e, refl, v, refl, omega arith)
main_loop-IsValid little (junk ∷ junks) {e} {b} v m h d =
    let (e₂, cycle, v₂) = engine_run-IsValid little junk v m d.0 d.1 in
    let (pc, mem) = engine_run_frame little junk e cycle in
    let m₂ : HasMemory e₂.mem b = subst (λ q. HasMemory q b) (sym mem) m in
    let (e', rest, v', mem', pc') =
      main_loop-IsValid little junks v₂ m₂ (omega (arith, pc)) (d.2 e₂ cycle) in
    (e', rw (cycle, rest) refl, v', mem' ∙ mem, omega (arith, pc, pc'))
