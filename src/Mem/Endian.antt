-- ===== src/Mem/Endian.antt =====
-- Words in the memory of sw/src/mem.c, as `uint32_t` objects of a host.
use rv.Common.{
  if◌then◌else◌, ℕ, ◌+◌, ◌*◌, ◌/◌, ◌%◌, ◌^◌, ◌≡◌, refl, ap, Bool, true, false, Option, none, some,
  List, [], ◌∷◌, arith,
}
use rv.Mem.{Mem, mem_write, write_loop}

-- The object representation of a `uint32_t` on a host.
unfoldable pub word_bytes : Bool → ℕ → List ℕ
word_bytes little w =
    if little
    then w % 256 ∷ w / 2 ^ 8 % 256 ∷ w / 2 ^ 16 % 256 ∷ w / 2 ^ 24 ∷ []
    else w / 2 ^ 24 ∷ w / 2 ^ 16 % 256 ∷ w / 2 ^ 8 % 256 ∷ w % 256 ∷ []

-- The number that four bytes of a `uint32_t` object stand for.
unfoldable pub word_of : Bool → List ℕ → Option ℕ
word_of little (a ∷ b ∷ c ∷ d ∷ []) = some (
    if little
    then a + b * 2 ^ 8 + c * 2 ^ 16 + d * 2 ^ 24
    else d + c * 2 ^ 8 + b * 2 ^ 16 + a * 2 ^ 24)
word_of little _ = none

-- `mem_write` of a word gives the same memory on hosts of both byte orders.
pub mem_write_word_portable :
    (addr w : ℕ) (m : Mem)
    → mem_write true addr (some (word_bytes true w)) 4 m
      ≡ mem_write false addr (some (word_bytes false w)) 4 m
unfolding mem_write write_loop word_bytes
mem_write_word_portable addr w m = refl

word_of-bytes : (little : Bool) (w : ℕ) → word_of little (word_bytes little w) ≡ some w
unfolding word_of word_bytes
word_of-bytes true w = ap some (omega arith)
word_of-bytes false w = ap some (omega arith)
