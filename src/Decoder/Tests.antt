-- ===== src/Decoder/Tests.antt =====
-- The decoder on concrete instruction words.
use rv.Common.{◌≡◌, refl}
use rv.Decoder.{op_imm, op_lui, format_of, i_format, u_format}

is_i_format : format_of op_imm ≡ i_format
unfolding format_of
is_i_format = refl

is_u_format : format_of op_lui ≡ u_format
unfolding format_of
is_u_format = refl
