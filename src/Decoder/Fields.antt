-- ===== src/Decoder/Fields.antt =====
-- The register fields that `decode` of sw/src/decoder.c gives.
use rv.Common.{ℕ, ◌/◌, ◌%◌, ◌^◌, ◌<◌, arith}
use rv.Decoder.{Format, r_format, format_of, main_decode, decode}

main_decode-lt :
    (f : Format) (i : ℕ)
    → ((main_decode f i).rd < 32) × ((main_decode f i).rs1 < 32) × ((main_decode f i).rs2 < 32)
unfolding main_decode
main_decode-lt r_format i = omega arith
main_decode-lt _ i = omega arith

-- The decoded register numbers lie below 32, whatever the instruction word.
pub decode-lt : (i : ℕ) → ((decode i).rd < 32) × ((decode i).rs1 < 32) × ((decode i).rs2 < 32)
unfolding decode
decode-lt i = main_decode-lt (format_of (i / 2 ^ 2 % 2 ^ 5)) i
