-- ===== src/Engine/Subtract.antt =====
-- SUB and SRA from the instruction word, sw/src/decoder.c, to the ALU, sw/src/unit.c.
use rv.Common.{ℕ, ◌<◌, ◌≡◌, ap, some, arith}
use rv.Decoder.{decode}
use rv.Decoder.Immediate.{encode_r, decode-encode_r}
use rv.Alu.{alu_exec}
use rv.Engine.Dispatch.{operation}

-- The encodings of SUB and SRA reach the ALU under numbers that it does not know, and it gives 0
-- for them, whatever the operands.
pub sub_sra_lost :
    (rd rs1 rs2 vj vk : ℕ)
    → rd < 32
    → rs1 < 32
    → rs2 < 32
    → (alu_exec (operation (decode (encode_r rd 0 rs1 rs2 0x20))) vj vk ≡ some 0)
      × (alu_exec (operation (decode (encode_r rd 5 rs1 rs2 0x20))) vj vk ≡ some 0)
unfolding alu_exec
sub_sra_lost rd rs1 rs2 vj vk a b c =
    let sub = decode-encode_r rd 0 rs1 rs2 0x20 a (omega arith) b c (omega arith) in
    let sra = decode-encode_r rd 5 rs1 rs2 0x20 a (omega arith) b c (omega arith) in
    (ap (λ d. alu_exec (operation d) vj vk) sub, ap (λ d. alu_exec (operation d) vj vk) sra)
