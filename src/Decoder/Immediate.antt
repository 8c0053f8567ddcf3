-- ===== src/Decoder/Immediate.antt =====
-- `decode` of sw/src/decoder.c on instruction words that are put together as the manual says.
use rv.Common.{ℕ, ◌+◌, ◌*◌, ◌/◌, ◌^◌, ◌<◌, ◌≡◌, refl, ap, ◌∙◌, arith}
use rv.Decoder.{op_op, InstField, i_format, u_format, format_of, field, main_decode, decode}

-- The fields of a word, lowest first.
abbrev pub encode_r : ℕ → ℕ → ℕ → ℕ → ℕ → ℕ
encode_r rd funct3 rs1 rs2 funct7 =
    0b0110011 + rd * 2 ^ 7 + funct3 * 2 ^ 12 + rs1 * 2 ^ 15 + rs2 * 2 ^ 20 + funct7 * 2 ^ 25

abbrev pub encode_i : ℕ → ℕ → ℕ → ℕ → ℕ → ℕ
encode_i opcode rd funct3 rs1 imm =
    0b11 + opcode * 2 ^ 2 + rd * 2 ^ 7 + funct3 * 2 ^ 12 + rs1 * 2 ^ 15 + imm * 2 ^ 20

abbrev pub encode_u : ℕ → ℕ → ℕ → ℕ
encode_u opcode rd imm = 0b11 + opcode * 2 ^ 2 + rd * 2 ^ 7 + imm * 2 ^ 12

fields :
    {a b c d e f g a' b' c' d' e' f' g' : ℕ}
    → a ≡ a'
    → b ≡ b'
    → c ≡ c'
    → d ≡ d'
    → e ≡ e'
    → f ≡ f'
    → g ≡ g'
    → ◌≡◌ {A = InstField}
        (record { opcode = a; rd = b; rs1 = c; rs2 = d; funct7 = e; funct3 = f; immediate = g })
        (record {
          opcode = a';
          rd = b';
          rs1 = c';
          rs2 = d';
          funct7 = e';
          funct3 = f';
          immediate = g';
        })
fields a b c d e f g = rw (a, b, c, d, e, f, g)

-- The decoder gives back every field of a register instruction.
pub decode-encode_r :
    (rd funct3 rs1 rs2 funct7 : ℕ)
    → rd < 32
    → funct3 < 8
    → rs1 < 32
    → rs2 < 32
    → funct7 < 128
    → decode (encode_r rd funct3 rs1 rs2 funct7) ≡ record {
      opcode = op_op;
      rd = rd;
      rs1 = rs1;
      rs2 = rs2;
      funct7 = funct7;
      funct3 = funct3;
      immediate = 0;
    }
unfolding decode format_of main_decode
decode-encode_r rd funct3 rs1 rs2 funct7 a b c d e =
    let w = encode_r rd funct3 rs1 rs2 funct7 in
    let opcode : field 2 5 w ≡ op_op = omega arith in
    let at_rd : field 7 5 w ≡ rd = omega arith in
    let at_rs1 : field 15 5 w ≡ rs1 = omega arith in
    let at_rs2 : field 20 5 w ≡ rs2 = omega arith in
    let at_funct7 : field 25 7 w ≡ funct7 = omega arith in
    let at_funct3 : field 12 3 w ≡ funct3 = omega arith in
    ap (λ q. main_decode (format_of q) w) opcode
    ∙ fields opcode at_rd at_rs1 at_rs2 at_funct7 at_funct3 refl

-- The decoder gives back every field of an instruction with a 12-bit immediate, whose bits it
-- extends with zeros.
pub decode-encode_i :
    (opcode rd funct3 rs1 imm : ℕ)
    → format_of opcode ≡ i_format
    → opcode < 32
    → rd < 32
    → funct3 < 8
    → rs1 < 32
    → imm < 2 ^ 12
    → decode (encode_i opcode rd funct3 rs1 imm) ≡ record {
      opcode = opcode;
      rd = rd;
      rs1 = rs1;
      rs2 = 0;
      funct7 = 0;
      funct3 = funct3;
      immediate = imm;
    }
unfolding decode main_decode
decode-encode_i opcode rd funct3 rs1 imm f o a b c d =
    let w = encode_i opcode rd funct3 rs1 imm in
    let at_opcode : field 2 5 w ≡ opcode = omega arith in
    let at_rd : field 7 5 w ≡ rd = omega arith in
    let at_rs1 : field 15 5 w ≡ rs1 = omega arith in
    let at_funct3 : field 12 3 w ≡ funct3 = omega arith in
    let at_imm : w / 2 ^ 20 ≡ imm = omega arith in
    ap (λ q. main_decode q w) (ap format_of at_opcode ∙ f)
    ∙ fields at_opcode at_rd at_rs1 refl refl at_funct3 at_imm

-- The decoder gives back every field of an instruction with a 20-bit upper immediate.
pub decode-encode_u :
    (opcode rd imm : ℕ)
    → format_of opcode ≡ u_format
    → opcode < 32
    → rd < 32
    → imm < 2 ^ 20
    → decode (encode_u opcode rd imm) ≡ record {
      opcode = opcode;
      rd = rd;
      rs1 = 0;
      rs2 = 0;
      funct7 = 0;
      funct3 = 0;
      immediate = imm * 2 ^ 12;
    }
unfolding decode main_decode
decode-encode_u opcode rd imm f o a b =
    let w = encode_u opcode rd imm in
    let at_opcode : field 2 5 w ≡ opcode = omega arith in
    let at_rd : field 7 5 w ≡ rd = omega arith in
    let at_imm : w / 2 ^ 12 * 2 ^ 12 ≡ imm * 2 ^ 12 = omega arith in
    ap (λ q. main_decode q w) (ap format_of at_opcode ∙ f)
    ∙ fields at_opcode at_rd refl refl refl refl at_imm
