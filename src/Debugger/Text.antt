-- ===== src/Debugger/Text.antt =====
-- C strings for sw/ELE749_projet1-develop/src/debugger.c and progReader.c: the names of the
-- commands, and what the two files use of string.h, ctype.h and stdlib.h. A string is the list of
-- its bytes before the terminator.
use rv.Common.{
  leb, ◌==◌, if◌then◌else◌, ℕ, zero, suc, ◌+◌, ◌-◌, ◌*◌, ◌^◌, min, Bool, true, false, ◌&&◌, ◌||◌,
  Option, none, some, List, [], ◌∷◌, reverse,
}
use rv.Int.{ℤ, ◌-ℤ◌, pos, negsuc}
use rv.Word.{u32}

-- `strcmp` gives 0.
abbrev pub same_text : List ℕ → List ℕ → Bool
same_text [] [] = true
same_text [] (d ∷ ds) = false
same_text (c ∷ cs) [] = false
same_text (c ∷ cs) (d ∷ ds) = c == d && same_text cs ds

abbrev pub to_lower : ℕ → ℕ
to_lower c = if leb b'A' c && leb c b'Z' then c + 32 else c

-- The delimiters are " \n".
abbrev pub is_delimiter : ℕ → Bool
is_delimiter c = c == b' ' || c == b'\n'

-- A token that has begun, its bytes in reverse, and the tokens after it.
abbrev pub close : List ℕ → List (List ℕ) → List (List ℕ)
close [] rest = rest
close (c ∷ cs) rest = reverse (c ∷ cs) ∷ rest

-- What the calls of `strtok` return until it returns NULL.
unfoldable pub strtok : (ℕ → Bool) → List ℕ → List ℕ → List (List ℕ)
strtok delimiter begun [] = close begun []
strtok delimiter begun (c ∷ cs) = elim (delimiter c) [
  | true ↦ close begun (strtok delimiter [] cs)
  | false ↦ strtok delimiter (c ∷ begun) cs
]

-- The first `n` tokens.
abbrev pub take : ℕ → List (List ℕ) → List (List ℕ)
take zero ts = []
take (suc n) [] = []
take (suc n) (t ∷ ts) = t ∷ take n ts

abbrev pub hex_digit : ℕ → Option ℕ
hex_digit c =
    if leb b'0' c && leb c b'9'
    then some (c - b'0')
    else if leb b'a' c && leb c b'f'
    then some (c - b'a' + 10)
    else if leb b'A' c && leb c b'F'
    then some (c - b'A' + 10)
    else none

unfoldable pub hex_digits : List ℕ → ℕ → ℕ
hex_digits [] n = n
hex_digits (c ∷ cs) n = elim (hex_digit c) [ none ↦ n | some d ↦ hex_digits cs (n * 16 + d) ]

abbrev pub is_space : ℕ → Bool
is_space c = c == b' ' || leb 9 c && leb c 13

unfoldable pub skip_space : List ℕ → List ℕ
skip_space [] = []
skip_space (c ∷ cs) = if is_space c then skip_space cs else c ∷ cs

abbrev pub is_hex : ℕ → Bool
is_hex c = elim (hex_digit c) [ none ↦ false | some d ↦ true ]

-- "0x" goes before a digit only.
unfoldable pub skip_prefix : List ℕ → List ℕ
skip_prefix (z ∷ x ∷ d ∷ cs) =
    if z == b'0' && (x == b'x' || x == b'X') && is_hex d then d ∷ cs else z ∷ x ∷ d ∷ cs
skip_prefix cs = cs

-- `strtol` and `strtoll` of base 16, where the largest number of the type is `max`.
unfoldable pub signed_hex : ℕ → List ℕ → ℤ
signed_hex max [] = pos 0
signed_hex max (c ∷ cs) =
    if c == b'-'
    then pos 0 -ℤ pos (min (hex_digits (skip_prefix cs) 0) (max + 1))
    else if c == b'+'
    then pos (min (hex_digits (skip_prefix cs) 0) max)
    else pos (min (hex_digits (skip_prefix (c ∷ cs)) 0) max)

abbrev pub strtol : ℕ → List ℕ → ℤ
strtol max s = signed_hex max (skip_space s)

-- The conversion to `uint32_t`.
unfoldable pub to_u32 : ℤ → ℕ
to_u32 (pos n) = u32 n
to_u32 (negsuc n) = 2 ^ 32 - 1 - u32 n

-- MAX_CMD_ARG
abbrev pub max_cmd_arg : ℕ
max_cmd_arg = 5
