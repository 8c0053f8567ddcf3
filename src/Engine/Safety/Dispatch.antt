-- ===== src/Engine/Safety/Dispatch.antt =====
-- `dispatch` of sw/src/engine.c on a valid engine.
use rv.Common.{
  ◌==◌, if◌then◌else◌, Bool-cases, set, All, get_elem?-some, All-get, All-set, ℕ, ◌%◌, ◌<◌, ◌≡◌,
  refl, ◌∙◌, ◌≢◌, ◌⊎◌, inl, inr, Bool, true, false, Option, none, some, List, [], ◌∷◌, arith,
}
use rv.Int.{negsuc, ℤ, pos}
use rv.Decoder.{op_imm, op_load, op_store, op_auipc, InstField, decode}
use rv.Decoder.Fields.{decode-lt}
use rv.Engine.Dispatch.{
  Locals, Source, SecondSource, operand_j, operation, operand_k, second_source, place, new_entry,
  enter, dispatch,
}
use rv.Engine.Invariant.{IsValid, EntryOk, TagOk}
use rv.Reg.{reg_write_src, Reg, reg_read_src, reg_read_data}
use rv.Reg.Invariant.{reg_write_src-IsValid, IsValid as RegIsValid}
use rv.Reg.Renaming.{reg_write_src-view}
use rv.Rob.Total.{rob_issue_total, rob_read_total}
use rv.Engine.State.{Engine, ExbData, CdbData, first_match}
use rv.Rob.{rob_full, Rob, rob_read}
use rv.Rob.Invariant.{IsValid as RobIsValid}

-- What the operand look-ups rest on.
record Readable (n : ℕ) (rob : Rob) (reg : Reg) : Type 0 where
  rob_valid : RobIsValid rob
  rob_size : rob.size ≡ n
  reg_valid : RegIsValid reg
  registers : reg.size ≡ 32
  tags : All (TagOk n) reg.s

read_src_total :
    {n : ℕ} (a old : ℕ) {rob : Rob} {reg : Reg}
    → a < 32
    → Readable n rob reg
    → (dirty : Bool) × (tag : ℕ) × (reg_read_src a (some old) reg ≡ some (dirty, some tag))
      × (tag < n)
unfolding reg_read_src
read_src_total {n} a old {reg = reg} h w =
    let (tag, at) = get_elem?-some reg.s a (omega (arith, w.registers, w.reg_valid.s_room)) in
    let (dirty, at') = get_elem?-some reg.d a (omega (arith, w.registers, w.reg_valid.d_room)) in
    (dirty, tag, ground (arith, at, at', w.registers), All-get (TagOk n) reg.s a w.tags at)

read_data_total :
    {n : ℕ} (a old : ℕ) {rob : Rob} {reg : Reg}
    → a < 32
    → Readable n rob reg
    → (v : ℕ) × (reg_read_data a (some old) reg ≡ some (true, some v))
unfolding reg_read_data
read_data_total a old {reg = reg} h w =
    let (v, at) = get_elem?-some reg.x a (omega (arith, w.registers, w.reg_valid.x_room)) in
    (v, ground (arith, at, w.registers))

operand_j_total :
    {n : ℕ} (rs1 : ℕ) (junk : Locals) (lanes : List CdbData) {rob : Rob} {reg : Reg}
    → rs1 < 32
    → Readable n rob reg
    → (j : Source) × (operand_j rs1 junk lanes rob reg ≡ some j)
unfolding operand_j
operand_j_total rs1 junk lanes {rob} {reg} h w =
    let (dirty, tag, reads, small) = read_src_total rs1 junk.qj h w in
    let (v, data_) = read_data_total rs1 junk.vj h w in
    let (done, value, waits) = rob_read_total tag junk.vj w.rob_valid (omega (arith, w.rob_size)) in
    found dirty tag v done value reads data_ waits (first_match tag lanes) refl
  where
    found :
        (dirty : Bool) (tag v : ℕ) (done : Bool) (value : ℕ)
        → reg_read_src rs1 (some junk.qj) reg ≡ some (dirty, some tag)
        → reg_read_data rs1 (some junk.vj) reg ≡ some (true, some v)
        → rob_read tag junk.vj rob ≡ some (done, value)
        → (m : Option ℕ) → first_match tag lanes ≡ m
        → (j : Source) × (operand_j rs1 junk lanes rob reg ≡ some j)
    found true tag v done value a b c (some m) e = (record { q = tag; v = m; r = true }, rw (a, e))
    found true tag v done value a b c none e =
        (record { q = tag; v = value; r = done }, rw (a, e, c))
    found false tag v done value a b c m e = (record { q = tag; v = v; r = true }, rw (a, b))

operand_k_total :
    {n : ℕ} (inst : InstField) (junk : Locals) (vj : ℕ) (lanes : List CdbData) {rob : Rob}
    {reg : Reg}
    → inst.rs2 < 32
    → Readable n rob reg
    → (k : SecondSource) × (operand_k inst junk vj lanes rob reg ≡ some k)
unfolding operand_k
operand_k_total inst junk vj lanes {rob} {reg} h w =
    let (dirty, tag, reads, small) = read_src_total inst.rs2 junk.qk h w in
    let (v, data_) = read_data_total inst.rs2 junk.vk h w in
    let (done, value, waits) = rob_read_total tag vj w.rob_valid (omega (arith, w.rob_size)) in
    found dirty tag v done value reads data_ waits (first_match tag lanes) refl
  where
    op : ℕ
    op = operation inst

    found :
        (dirty : Bool) (tag v : ℕ) (done : Bool) (value : ℕ)
        → reg_read_src inst.rs2 (some junk.qk) reg ≡ some (dirty, some tag)
        → reg_read_data inst.rs2 (some junk.vk) reg ≡ some (true, some v)
        → rob_read tag vj rob ≡ some (done, value)
        → (m : Option ℕ) → first_match tag lanes ≡ m
        → (k : SecondSource) × (operand_k inst junk vj lanes rob reg ≡ some k)
    found true tag v done value a b c (some m) e =
        (record { f10 = op; qk = tag; vk = m; rk = true; vj = vj }, rw (a, e))
    found true tag v done value a b c none e =
        (record { f10 = op; qk = tag; vk = junk.vk; rk = done; vj = value }, rw (a, e, c))
    found false tag v done value a b c m e =
        (record { f10 = op; qk = tag; vk = v; rk = true; vj = vj }, rw (a, b))

-- A result on either side of a test.
choose :
    (t : Bool) (k : SecondSource) {rest : Option SecondSource}
    → (k' : SecondSource) × (rest ≡ some k')
    → (k' : SecondSource) × ((if t then some k else rest) ≡ some k')
choose true k p = (k, refl)
choose false k p = p

second_source_total :
    {n : ℕ} (inst : InstField) (junk : Locals) (vj : ℕ) (lanes : List CdbData) {rob : Rob}
    {reg : Reg}
    → inst.rs2 < 32
    → Readable n rob reg
    → (k : SecondSource) × (second_source inst junk vj lanes rob reg ≡ some k)
unfolding second_source
second_source_total inst junk vj lanes h w = choose (inst.opcode == op_imm) (imm inst.funct3) (
    choose (inst.opcode == op_load) (imm 0) (
      choose (inst.opcode == op_store) (imm 0)
        (choose (inst.opcode == op_auipc) (imm 0) (operand_k_total inst junk vj lanes h w))))
  where
    imm : ℕ → SecondSource
    imm f10 = record { f10 = f10; qk = 0; vk = inst.immediate; rk = true; vj = vj }

either :
    (n : ℕ) (t : Bool) (xs ys : List ExbData)
    → All (EntryOk n) xs
    → All (EntryOk n) ys
    → All (EntryOk n) (if t then xs else ys)
either n true xs ys p q = p
either n false xs ys p q = q

place-EntryOk :
    (n : ℕ) (x : ExbData) (xs : List ExbData)
    → EntryOk n x
    → All (EntryOk n) xs
    → All (EntryOk n) (place x xs)
unfolding place
place-EntryOk n x [] p h = tt
place-EntryOk n x (y ∷ ys) p h =
    let rest = place-EntryOk n x ys p h.1 in
    either n y.busy (y ∷ place x ys) (x ∷ ys) (h.0, rest) (p, h.1)

-- A write of a source tag leaves the size alone, and all tags inside the reorder buffer.
write_src_frame :
    (n a t : ℕ) (r : Reg) {r' : Reg} {ok : Bool}
    → t < n
    → All (TagOk n) r.s
    → reg_write_src a t r ≡ some (ok, r')
    → (r'.size ≡ r.size) × All (TagOk n) r'.s
unfolding reg_write_src
write_src_frame n a t r {r'} small tags h =
    let (same, which) = shape in
    (same, elim which [ inl e ↦ rw e tags | inr e ↦ rw e (All-set (TagOk n) r.s a t tags small) ])
  where
    shape : (r'.size ≡ r.size) × ((r'.s ≡ r.s) ⊎ (r'.s ≡ set r.s a t))
    shape = ground arith

enter-IsValid :
    {n : ℕ} (junk : Locals) (inst : InstField) {e : Engine}
    → IsValid n e
    → inst.rs1 < 32
    → inst.rs2 < 32
    → e.rob.cnt ≢ e.rob.size
    → (code : ℤ) × (e' : Engine) × (enter junk inst e ≡ some (code, e')) × IsValid n e'
unfolding enter
enter-IsValid {n} junk inst {e} v h1 h2 free =
    let (rob, issues, rob_valid, rob_size) = rob_issue_total inst.rd junk.qr v.rob free in
    let qr = e.rob.issue_ptr % 256 in
    let qr_in : qr < n = omega (arith, v.rob_size, v.rob.issue_in) in
    let w : Readable n rob e.reg = record {
      rob_valid = rob_valid;
      rob_size = rob_size ∙ v.rob_size;
      reg_valid = v.reg;
      registers = v.registers;
      tags = v.tags;
    } in
    let (j, gets_j) = operand_j_total inst.rs1 junk e.cdb.lane h1 w in
    let (k, gets_k) = second_source_total inst junk j.v e.cdb.lane h2 w in
    let (reg, writes, _) = reg_write_src-view inst.rd qr v.reg in
    let (same, tags) = write_src_frame n inst.rd qr e.reg qr_in v.tags writes in
    (
      pos 0,
      record e {
        rob = rob;
        reg = reg;
        exb = record (e.exb) { buf = place (new_entry qr j k) e.exb.buf };
      },
      rw (issues, gets_j, gets_k, writes),
      record {
        rob = rob_valid;
        rob_size = rob_size ∙ v.rob_size;
        reg = reg_write_src-IsValid inst.rd qr v.reg writes;
        registers = same ∙ v.registers;
        tags = tags;
        lanes = v.lanes;
        units = v.units;
        entries = place-EntryOk n (new_entry qr j k) e.exb.buf (λ _. qr_in) v.entries;
      },
    )

-- `dispatch` on a valid engine does not fault and leaves a valid engine, whatever the instruction
-- and the contents of its uninitialised variables.
pub dispatch-IsValid :
    {n : ℕ} (junk : Locals) {e : Engine}
    → IsValid n e
    → (code : ℤ) × (e' : Engine) × (dispatch junk e ≡ some (code, e')) × IsValid n e'
unfolding dispatch rob_full
dispatch-IsValid {n} junk {e} v = elim (Bool-cases (e.instruction == 0)) [
  | inl empty ↦ (negsuc 0, e, rw empty, v)
  | inr some_instruction ↦ elim (Bool-cases (e.rob.size == e.rob.cnt)) [
    | inl full ↦ (negsuc 0, e, rw (some_instruction, full), v)
    | inr free ↦
        (let (_, s1, s2) = decode-lt e.instruction in
          let (code, e', runs, v') =
            enter-IsValid junk (decode e.instruction) v s1 s2 (λ q. ground arith) in
          (code, e', rw (some_instruction, free) runs, v'))
  ]
]
